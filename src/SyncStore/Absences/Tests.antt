-- ===== src/SyncStore/Absences/Tests.antt =====
-- The plan of a list that leaves a row of the sample database out (sync_store.py).
use voucher_management_deskt.SyncStore.Absences.{inspect_snapshot_absences}
use voucher_management_deskt.Prelude.{clean_ids, ◌∷◌, []}
use voucher_management_deskt.SyncStore.Absences.Plan.{
  IsAbsencePlan, inspect_snapshot_absences-IsAbsencePlan,
}
use voucher_management_deskt.Samples.{sample_db}

inspect_snapshot_absences-IsAbsencePlan_example :
    IsAbsencePlan 1
      (clean_ids ("a" ∷ []))
      sample_db.vouchers
      (inspect_snapshot_absences 1 ("a" ∷ []) sample_db)
inspect_snapshot_absences-IsAbsencePlan_example =
    inspect_snapshot_absences-IsAbsencePlan 1 ("a" ∷ []) sample_db
