-- ===== src/History/Print.antt =====
-- history.py: `prepare_print_audit`, `_record_print_records`, `recover_pending_print_audit` and
-- `record_print`.
pub mod Behind
pub mod Distinct
pub mod Resumed
pub mod Completed
pub mod Plain
pub mod Tests
use voucher_management_deskt.History.Records.{PrintArgs, build_print_records}
use voucher_management_deskt.History.Journal.{collect, verify_print_job, is_expected, is_missing}
use voucher_management_deskt.Database.Action.{
  Result, ok, history_error, job_reused, err, outcome_unknown, no_prepared,
}
use voucher_management_deskt.Prelude.{
  String, strip, Option, Bool, List, none, if◌then◌else◌, all_by, [], false, true, is_empty, some,
  filter_by,
}
use voucher_management_deskt.Json.{Fields, Python}
use voucher_management_deskt.History.Base.{
  Platform, Env, Action, ◌>>>◌, ◌>>=◌, guard, reads, append, for_items, Journal,
}
use voucher_management_deskt.History.Identity.{usable_secret}
use voucher_management_deskt.History.Pending.{
  PendingPrintAudit, load_pending_print, persist_pending_print, clear_pending_print,
  mark_print_submitted, assert_no_pending_print_audit, prepared, submitted, is_submitted,
}

module _ (py : Python) (os : Platform) (env : Env) where
  -- `missing` of `_record_print_records`
  unfoldable pub missing_records : List Fields → String → Journal → Result (List Fields)
  missing_records records audit_id j =
      if is_empty audit_id
      then ok records
      else for_items (collect py audit_id) [] j >>= λ existing.
          guard (all_by (is_expected records) existing) (history_error job_reused) >>= λ _.
          ok (filter_by (is_missing existing) records)

  unfoldable pub record_print_records : List Fields → String → Action (Unit {0})
  record_print_records records audit_id =
      reads (λ d. missing_records records audit_id d.journal)
      >>> (λ missing. append env missing)
      >>> λ _. reads (λ d. verify_print_job py records audit_id d.journal)

  -- `prepare_print_audit`
  unfoldable pub prepare_print_audit : PrintArgs → Action (Unit {0})
  prepare_print_audit args =
      assert_no_pending_print_audit py os >>> (λ _. build_print_records os env args) >>> λ records.
      persist_pending_print py os env records args.audit_id prepared

  -- the last lines of `recover_pending_print_audit` and of `record_print`
  unfoldable pub settle : Bool → List Fields → String → Action (Unit {0})
  settle clear_pending records audit_id = record_print_records records audit_id >>> λ _.
      if clear_pending then clear_pending_print py os env audit_id else λ d. (ok tt, d)

  unfoldable pub complete : Bool → PendingPrintAudit → Action Bool
  complete clear_pending p = settle clear_pending p.records p.audit_id >>> λ _ d. (ok true, d)

  -- the descriptor, read again after the transition
  unfoldable pub complete_again : Bool → Option PendingPrintAudit → Action Bool
  complete_again clear_pending none d = (err (history_error no_prepared), d)
  complete_again clear_pending (some p) d = complete clear_pending p d

  -- a descriptor that is `prepared`
  unfoldable pub promote : Bool → Bool → PendingPrintAudit → Action Bool
  promote false clear_pending p d = (err (history_error outcome_unknown), d)
  promote true clear_pending p d =
      (mark_print_submitted py os env p.audit_id
          >>> (λ _. reads (λ d'. load_pending_print py os d'.pending))
          >>> λ again. complete_again clear_pending again)
        d

  unfoldable pub recover_loaded : Bool → Bool → Option PendingPrintAudit → Action Bool
  recover_loaded assume_submitted clear_pending none d = (ok false, d)
  recover_loaded assume_submitted clear_pending (some p) d =
      (usable_secret os env >>> λ _.
      if is_submitted p.state
      then complete clear_pending p
      else promote assume_submitted clear_pending p)
        d

  -- `recover_pending_print_audit`
  unfoldable pub recover_pending_print_audit : Bool → Bool → Action Bool
  recover_pending_print_audit assume_submitted clear_pending =
      reads (λ d. load_pending_print py os d.pending)
      >>> recover_loaded assume_submitted clear_pending

  -- the arguments after `normalized_audit_id` and `timestamp`
  unfoldable pub normalized_args : Option String → Option String → PrintArgs → PrintArgs
  normalized_args audit_id submitted_at args = record args {
    audit_id = elim audit_id [ none ↦ env.token 0 | some s ↦ strip s ];
    submitted_at = elim submitted_at [
      | none ↦ env.now
      | some s ↦ if is_empty s then env.now else strip s
    ];
  }

  -- `record_print`; the first two arguments stand in place of the fields of `args`
  unfoldable pub record_print : Option String → Option String → Bool → PrintArgs → Action (Unit {0})
  record_print audit_id submitted_at clear_pending args =
      let args' = normalized_args audit_id submitted_at args in
      build_print_records os env args' >>> λ records.
      persist_pending_print py os env records args'.audit_id submitted >>> λ _.
      settle clear_pending records args'.audit_id
