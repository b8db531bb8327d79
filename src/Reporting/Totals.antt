-- ===== src/Reporting/Totals.antt =====
-- `_totals` and `_validated_totals` of reporting.py.
pub mod Consistency
mod Tests
use voucher_management_deskt.Prelude.{
  List, [], ◌∷◌, if◌then◌else◌, ℕ, length, Bool, not, ◌&&◌, ◌+◌, bit, is_some, eqb, opt_bool_eqb,
  some, true, false, is_empty,
}
use voucher_management_deskt.Reporting.Rows.{
  ReportRow, is_generated, is_printed_row, is_not_printed_row, is_print_unknown_row,
}

pub record ReportTotals : Type 0 where
  pub vouchers : ℕ
  pub generated_vouchers : ℕ
  pub used_vouchers : ℕ
  pub never_used_vouchers : ℕ
  pub usage_unknown_vouchers : ℕ
  pub total_controller_uses : ℕ
  pub expired_vouchers : ℕ
  pub printed_vouchers : ℕ
  pub print_jobs : ℕ
  pub physical_copies : ℕ
  pub reprint_jobs : ℕ
  pub reprint_copies : ℕ
  pub printed_never_used : ℕ
  pub never_printed : ℕ
  pub nominal_vouchers : ℕ
  pub non_nominal_vouchers : ℕ
  pub unclassified_vouchers : ℕ
  pub unknown_origin_vouchers : ℕ
  pub redacted_nominality_vouchers : ℕ
  pub security_revoked_vouchers : ℕ
  pub printed_usage_unknown : ℕ
  pub print_unknown_vouchers : ℕ
  pub preparation_deleted_vouchers : ℕ

-- `sum(f(row) for row in rows)`
abbrev pub sum_of : (ReportRow → ℕ) → List ReportRow → ℕ
sum_of f [] = 0
sum_of f (r ∷ rs) = f r + sum_of f rs

-- `sum(p(row) for row in rows)` over Booleans
abbrev pub tally : (ReportRow → Bool) → List ReportRow → ℕ
tally p = sum_of (λ r. bit (p r))

abbrev pub never_used_row : ReportRow → Bool
never_used_row r = r.usage_observed && not r.ever_used

abbrev pub unclassified_row : ReportRow → Bool
unclassified_row r = not (is_some r.is_nominal) && not r.nominality_redacted

pub totals : List ReportRow → ReportTotals
totals rows = record {
  vouchers = length rows;
  generated_vouchers = tally is_generated rows;
  used_vouchers = tally (λ r. r.ever_used) rows;
  never_used_vouchers = tally never_used_row rows;
  usage_unknown_vouchers = tally (λ r. not r.usage_observed) rows;
  total_controller_uses = sum_of (λ r. r.authorized_guest_count) rows;
  expired_vouchers = tally (λ r. r.expired) rows;
  printed_vouchers = tally is_printed_row rows;
  print_jobs = sum_of (λ r. r.print_jobs) rows;
  physical_copies = sum_of (λ r. r.physical_copies) rows;
  reprint_jobs = sum_of (λ r. r.reprint_jobs) rows;
  reprint_copies = sum_of (λ r. r.reprint_copies) rows;
  printed_never_used = tally (λ r. is_printed_row r && never_used_row r) rows;
  never_printed = tally is_not_printed_row rows;
  nominal_vouchers = tally (λ r. opt_bool_eqb r.is_nominal (some true)) rows;
  non_nominal_vouchers = tally (λ r. opt_bool_eqb r.is_nominal (some false)) rows;
  unclassified_vouchers = tally unclassified_row rows;
  unknown_origin_vouchers = tally (λ r. not (is_generated r)) rows;
  redacted_nominality_vouchers = tally (λ r. r.nominality_redacted) rows;
  security_revoked_vouchers = tally (λ r. not (is_empty r.security_revoked_at)) rows;
  printed_usage_unknown = tally (λ r. is_printed_row r && not r.usage_observed) rows;
  print_unknown_vouchers = tally is_print_unknown_row rows;
  preparation_deleted_vouchers = tally (λ r. not (is_empty r.preparation_deleted_at)) rows;
}

-- the RuntimeErrors of `_validated_totals`
pub data Inconsistency : Type 0 where
  usage_totals print_totals nominality_totals origin_totals : Inconsistency

pub data Validated : Type 0 where
  valid : ReportTotals → Validated
  inconsistent : Inconsistency → Validated

pub check_totals : ReportTotals → Validated
check_totals t =
    if not (eqb (t.used_vouchers + t.never_used_vouchers + t.usage_unknown_vouchers) t.vouchers)
    then inconsistent usage_totals
    else if not (eqb (t.printed_vouchers + t.never_printed + t.print_unknown_vouchers) t.vouchers)
    then inconsistent print_totals
    else if not (
        eqb
          (t.nominal_vouchers + t.non_nominal_vouchers + t.unclassified_vouchers
            + t.redacted_nominality_vouchers)
          t.vouchers)
    then inconsistent nominality_totals
    else if not (eqb (t.generated_vouchers + t.unknown_origin_vouchers) t.vouchers)
    then inconsistent origin_totals
    else valid t

pub validated_totals : List ReportRow → Validated
unfolding totals check_totals
validated_totals rows = check_totals (totals rows)
