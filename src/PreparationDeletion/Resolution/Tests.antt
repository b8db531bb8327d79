-- ===== src/PreparationDeletion/Resolution/Tests.antt =====
-- A pending request of the sample database (preparation_deletion.py) whose voucher is gone.
use voucher_management_deskt.PreparationDeletion.Resolution.Settled.{
  settle_event, reconciliation_settles,
}
use voucher_management_deskt.Database.Action.{ok}
use voucher_management_deskt.Samples.{sample_db}
use voucher_management_deskt.Database.Rows.{Db, preparation_delete_requested, operator}
use voucher_management_deskt.PreparationDeletion.Resolution.{
  Reconciled, reconcile_preparation_delete_requests,
}
use voucher_management_deskt.Prelude.{
  strip, is_empty, ◌∷◌, ◌≡◌, false, [], refl, some, none, map, clean_ids, eqb,
}

abbrev pending_db : Db
pending_db = record sample_db {
  events =
      record {
        id = 7;
        voucher_id = 2;
        event_type = preparation_delete_requested;
        occurred_at = "2026-01-02";
        source = operator;
        windows_user = some "ada";
        details = none;
      }
      ∷ record {
        id = 9;
        voucher_id = 1;
        event_type = preparation_delete_requested;
        occurred_at = "2026-01-02";
        source = operator;
        windows_user = some "ada";
        details = none;
      }
      ∷ [];
}

has_time : is_empty (strip "2026-01-03") ≡ false
unfolding strip
has_time = refl

reconciliation_settles_example :
    (r : Reconciled) × ((reconcile_preparation_delete_requests 1
        ("a" ∷ [])
        ("b" ∷ [])
        "2026-01-03"
        pending_db).0
      ≡ ok r)
    × ((reconcile_preparation_delete_requests 1 ("a" ∷ []) ("b" ∷ []) "2026-01-03" pending_db).1
        ≡ record pending_db {
          events =
              map
                (settle_event
                  (clean_ids ("a" ∷ []))
                  (clean_ids ("b" ∷ []))
                  (strip "2026-01-03")
                  (λ v. eqb v.controller_id 1)
                  pending_db.vouchers)
                pending_db.events;
        })
reconciliation_settles_example =
    reconciliation_settles 1 ("a" ∷ []) ("b" ∷ []) "2026-01-03" pending_db refl has_time
