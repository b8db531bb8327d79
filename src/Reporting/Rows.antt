-- ===== src/Reporting/Rows.antt =====
-- `ReportRow`, its classifications and `_matches` of reporting.py.
use voucher_management_deskt.Database.Rows.{
  is_application, Origin, PrintState, is_not_printed, is_printed,
}
use voucher_management_deskt.Prelude.{
  ℕ, Bool, Option, ltb, not, eqb, some, true, String, ◌&&◌, if◌then◌else◌, ◌||◌, none, opt_bool_eqb,
  false, is_some, is_empty,
}

pub data ReportKind : Type 0 where
  summary generated generated_unused used expired printed printed_unused : ReportKind
  never_printed print_unknown unprinted_warning security_review : ReportKind
  nominal non_nominal unclassified usage_unknown origin_unknown : ReportKind
  nominality_redacted security_revoked preparation_deleted full_history : ReportKind

-- the fields that views and totals read; an optional text is tested for emptiness only
pub record ReportRow : Type 0 where
  pub authorized_guest_count : ℕ
  pub ever_used : Bool
  pub usage_observed : Bool
  pub print_jobs : ℕ
  pub physical_copies : ℕ
  pub reprint_jobs : ℕ
  pub reprint_copies : ℕ
  pub expired : Bool
  pub origin : Origin
  pub is_nominal : Option Bool
  pub nominality_redacted : Bool
  pub security_revoked_at : String
  pub print_state : PrintState
  pub preparation_deleted_at : String

abbrev pub is_printed_row : ReportRow → Bool
is_printed_row r = ltb 0 r.print_jobs || is_printed r.print_state

abbrev pub is_not_printed_row : ReportRow → Bool
is_not_printed_row r = eqb r.print_jobs 0 && is_not_printed r.print_state

abbrev pub is_print_unknown_row : ReportRow → Bool
is_print_unknown_row r = not (is_printed_row r) && not (is_not_printed_row r)

-- `row.origin in APPLICATION_ORIGINS`
abbrev pub is_generated : ReportRow → Bool
is_generated r = is_application r.origin

-- `none` is the ValueError of the kinds that need a threshold
unfoldable pub matches : ReportKind → ReportRow → Option Bool
matches summary r = some true
matches full_history r = some true
matches generated r = some (is_generated r)
matches generated_unused r = some (is_generated r && r.usage_observed && not r.ever_used)
matches used r = some r.ever_used
matches expired r = some r.expired
matches printed r = some (is_printed_row r)
matches printed_unused r = some (is_printed_row r && not r.ever_used)
matches never_printed r = some (is_not_printed_row r)
matches print_unknown r = some (is_print_unknown_row r)
matches unprinted_warning r = none
matches security_review r = none
matches nominal r = some (opt_bool_eqb r.is_nominal (some true))
matches non_nominal r = some (opt_bool_eqb r.is_nominal (some false))
matches unclassified r = some (not (is_some r.is_nominal) && not r.nominality_redacted)
matches usage_unknown r = some (not r.usage_observed)
matches origin_unknown r = some (not (is_application r.origin))
matches nominality_redacted r = some r.nominality_redacted
matches security_revoked r = some (not (is_empty r.security_revoked_at))
matches preparation_deleted r = some (not (is_empty r.preparation_deleted_at))

-- `_status`; the status texts in English
pub data Status : Type 0 where
  revoked_status deleted_status archived_status expired_status used_status : Status
  printed_status never_printed_status undetermined_status : Status

unfoldable pub status : Bool → Bool → Bool → PrintState → ℕ → Bool → Bool → Status
status archived is_expired ever_used print_state print_jobs revoked deleted =
    if revoked
    then revoked_status
    else if deleted
    then deleted_status
    else if archived
    then archived_status
    else if is_expired
    then expired_status
    else if ever_used
    then used_status
    else if ltb 0 print_jobs || is_printed print_state
    then printed_status
    else if is_not_printed print_state
    then never_printed_status
    else undetermined_status
