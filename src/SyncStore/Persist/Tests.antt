-- ===== src/SyncStore/Persist/Tests.antt =====
-- An omission from a list (sync_store.py).
use voucher_management_deskt.SyncStore.Persist.Suspicion.{presence, omission_is_suspicion}
use voucher_management_deskt.Database.Action.{ok}
use voucher_management_deskt.Prelude.{◌∷◌, [], ◌≡◌}
use voucher_management_deskt.Samples.{sample_calendar, sample_db}
use voucher_management_deskt.SyncStore.Persist.{omit_rows}

omission_is_suspicion_example :
    ((omit_rows sample_calendar 1 "2026-01-03" ("a" ∷ []) [] sample_db.vouchers sample_db).0
      ≡ ok [])
    × (presence
          (omit_rows sample_calendar 1 "2026-01-03"
            ("a" ∷ [])
            []
            sample_db.vouchers
            sample_db).1.vouchers
        ≡ presence sample_db.vouchers)
    × ((omit_rows sample_calendar 1 "2026-01-03"
          ("a" ∷ [])
          []
          sample_db.vouchers
          sample_db).1.events
        ≡ sample_db.events)
omission_is_suspicion_example =
    omission_is_suspicion sample_calendar 1 "2026-01-03" ("a" ∷ []) sample_db.vouchers sample_db
