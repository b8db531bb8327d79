-- ===== src/Reporting/Totals/Consistency.antt =====
-- When the totals of reporting.py are consistent.
use voucher_management_deskt.Reporting.Totals.{
  validated_totals, tally, never_used_row, unclassified_row, inconsistent, usage_totals,
  nominality_totals, valid, totals,
}
use voucher_management_deskt.Reporting.Rows.{
  ReportRow, is_generated, is_printed_row, is_not_printed_row, is_print_unknown_row,
}
use voucher_management_deskt.Prelude.{
  List, [], ◌∷◌, ◌≡◌, Bool, is_some, ◌&&◌, opt_bool_eqb, ◌+◌, any_by, ltb, some, not, length, arith,
  true, false, refl, if◌then◌else◌,
}

-- The two overlaps that the stored columns allow: a use that was observed on a row whose usage counts
-- as unobserved, and a classification on a row whose nominality is redacted.
abbrev pub usage_overlaps : ReportRow → Bool
usage_overlaps r = r.ever_used && not r.usage_observed

abbrev pub nominality_overlaps : ReportRow → Bool
nominality_overlaps r = is_some r.is_nominal && r.nominality_redacted

usage_sum :
    (rows : List ReportRow)
    → tally (λ r. r.ever_used) rows
        + tally never_used_row rows
        + tally (λ r. not r.usage_observed) rows
      ≡ length rows + tally usage_overlaps rows
usage_sum [] = omega arith
usage_sum (r ∷ rs) = ground (arith, usage_sum rs)

print_sum :
    (rows : List ReportRow)
    → tally is_printed_row rows + tally is_not_printed_row rows + tally is_print_unknown_row rows
      ≡ length rows
print_sum [] = omega arith
print_sum (r ∷ rs) = ground (arith, print_sum rs)

nominality_sum :
    (rows : List ReportRow)
    → tally (λ r. opt_bool_eqb r.is_nominal (some true)) rows
        + tally (λ r. opt_bool_eqb r.is_nominal (some false)) rows
        + tally unclassified_row rows
        + tally (λ r. r.nominality_redacted) rows
      ≡ length rows + tally nominality_overlaps rows
nominality_sum [] = omega arith
nominality_sum (r ∷ rs) = ground (arith, nominality_sum rs)

origin_sum :
    (rows : List ReportRow)
    → tally is_generated rows + tally (λ r. not (is_generated r)) rows ≡ length rows
origin_sum [] = omega arith
origin_sum (r ∷ rs) = ground (arith, origin_sum rs)

tally-zero : (p : ReportRow → Bool) (rows : List ReportRow) → any_by p rows ≡ ltb 0 (tally p rows)
tally-zero p [] = refl
tally-zero p (r ∷ rs) = ground (arith, tally-zero p rs)

-- The check refuses a report for overlapping usage classes if some row has them, else for overlapping
-- nominality classes if some row has them, and accepts every other report: print and origin classes
-- never overlap.
pub validated_totals-exact :
    (rows : List ReportRow)
    → validated_totals rows ≡ (
        if any_by usage_overlaps rows
        then inconsistent usage_totals
        else if any_by nominality_overlaps rows
        then inconsistent nominality_totals
        else valid (totals rows))
unfolding validated_totals
validated_totals-exact rows = ground (
  arith,
  usage_sum rows,
  print_sum rows,
  nominality_sum rows,
  origin_sum rows,
  tally-zero usage_overlaps rows,
  tally-zero nominality_overlaps rows,
)
