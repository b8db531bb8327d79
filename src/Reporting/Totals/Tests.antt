-- ===== src/Reporting/Totals/Tests.antt =====
-- The totals of two rows (reporting.py).
use voucher_management_deskt.Reporting.Totals.Consistency.{
  usage_overlaps, nominality_overlaps, validated_totals-exact,
}
use voucher_management_deskt.Database.Rows.{application, printed}
use voucher_management_deskt.Reporting.Rows.{ReportRow}
use voucher_management_deskt.Reporting.Totals.{
  validated_totals, inconsistent, usage_totals, nominality_totals, valid, totals,
}
use voucher_management_deskt.Prelude.{
  List, Bool, ◌≡◌, false, if◌then◌else◌, any_by, true, some, ◌∷◌, [],
}

abbrev report_row : Bool → Bool → ReportRow
report_row ever_used usage_observed = record {
  authorized_guest_count = 0;
  ever_used = ever_used;
  usage_observed = usage_observed;
  print_jobs = 1;
  physical_copies = 2;
  reprint_jobs = 0;
  reprint_copies = 0;
  expired = false;
  origin = application;
  is_nominal = some true;
  nominality_redacted = false;
  security_revoked_at = "";
  print_state = printed;
  preparation_deleted_at = "";
}

abbrev two_rows : List ReportRow
two_rows = report_row false true ∷ report_row true true ∷ []

validated_totals-exact_example : validated_totals two_rows ≡ (
    if any_by usage_overlaps two_rows
    then inconsistent usage_totals
    else if any_by nominality_overlaps two_rows
    then inconsistent nominality_totals
    else valid (totals two_rows))
validated_totals-exact_example = validated_totals-exact two_rows
