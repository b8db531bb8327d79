-- ===== src/SecurityRevocation/Records/Tests.antt =====
-- Runs of a revocation (security_revocation.py).
use voucher_management_deskt.Calendar.{normalize_now}
use voucher_management_deskt.Database.Action.{transaction, ok}
use voucher_management_deskt.Prelude.{◌≡◌, true, strip, refl}
use voucher_management_deskt.Database.Queries.{insert_event}
use voucher_management_deskt.Samples.{sample_db, sample_calendar}
use voucher_management_deskt.SecurityRevocation.Records.{
  record_security_revocation_request, request_in_transaction,
}
use voucher_management_deskt.SecurityRevocation.Records.Intent.{IsMarked, intent_is_durable}

intent_recorded :
    (record_security_revocation_request sample_calendar 2 "2026-01-03" "ada" sample_db).0 ≡ ok true
unfolding record_security_revocation_request request_in_transaction insert_event transaction
    normalize_now strip
intent_recorded = refl

intent_is_durable_example :
    IsMarked 2 sample_db
      (record_security_revocation_request sample_calendar 2 "2026-01-03" "ada" sample_db).1
    × (record_security_revocation_request sample_calendar 2 "2026-01-03" "ada"
          (record_security_revocation_request sample_calendar 2 "2026-01-03" "ada" sample_db).1
        ≡ (
          ok true,
          (record_security_revocation_request sample_calendar 2 "2026-01-03" "ada" sample_db).1,
        ))
intent_is_durable_example =
    intent_is_durable sample_calendar 2 "2026-01-03" "ada" sample_db intent_recorded
