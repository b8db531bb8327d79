-- ===== src/SyncStore/Snapshot/Tests.antt =====
-- A snapshot for a controller that is not in the database (sync_store.py).
use voucher_management_deskt.Database.Action.{transaction, err, integrity_error}
use voucher_management_deskt.Prelude.{◌∷◌, [], ◌≡◌, refl}
use voucher_management_deskt.Samples.{sample_calendar, first_voucher, sample_db}
use voucher_management_deskt.SyncStore.Snapshot.{
  persist_successful_snapshot, write_snapshot, no_options, insert_run, run_refused,
}

refused_run :
    (persist_successful_snapshot sample_calendar 5 "2026-01-03" "run"
      (first_voucher ∷ [])
      no_options
      sample_db).0
    ≡ err integrity_error
unfolding persist_successful_snapshot write_snapshot insert_run run_refused transaction
refused_run = refl
