-- ===== src/SecurityRevocation/Reconciliation/Tests.antt =====
-- A pending revocation that a list omits (security_revocation.py).
use voucher_management_deskt.SecurityRevocation.Reconciliation.Omission.{omission_never_revokes}
use voucher_management_deskt.Database.Queries.{has_event, is_revoked}
use voucher_management_deskt.Prelude.{◌∷◌, [], some, ◌≡◌, none, ℕ}
use voucher_management_deskt.SecurityRevocation.Reconciliation.{
  reconcile_pending_security_revocations,
}
use voucher_management_deskt.Database.Rows.{Db, security_revoke_requested, operator}
use voucher_management_deskt.Samples.{sample_db, sample_calendar}

abbrev pending_db : Db
pending_db = record sample_db {
  events =
      record {
        id = 7;
        voucher_id = 2;
        event_type = security_revoke_requested;
        occurred_at = "2026-01-02";
        source = operator;
        windows_user = some "ada";
        details = none;
      }
      ∷ [];
}

omission_never_revokes_example :
    ((reconcile_pending_security_revocations sample_calendar 1
        ("b" ∷ [])
        []
        "2026-01-03"
        "SYSTEM"
        pending_db).1.vouchers
      ≡ pending_db.vouchers)
    × ((k : ℕ)
        → has_event is_revoked k
            (reconcile_pending_security_revocations sample_calendar 1
              ("b" ∷ [])
              []
              "2026-01-03"
              "SYSTEM"
              pending_db).1
          ≡ has_event is_revoked k pending_db)
omission_never_revokes_example =
    omission_never_revokes sample_calendar 1 ("b" ∷ []) "2026-01-03" "SYSTEM" pending_db
