-- ===== src/Review/Tests.antt =====
-- The review lists of the sample database.
use voucher_management_deskt.Review.Retention.{retention_rows}
use voucher_management_deskt.Database.Rows.{printed}
use voucher_management_deskt.Review.Alerts.{warning_rows}
use voucher_management_deskt.Database.WellFormed.{IsWellFormed}
use voucher_management_deskt.Prelude.{some, true, arith, none, ◌&&◌, ◌≡◌, ◌∷◌, false, [], refl}
use voucher_management_deskt.Review.Revocation.{revocation_rows, is_revocation_candidate}
use voucher_management_deskt.Samples.{sample_db, row}
use voucher_management_deskt.Review.Queries.{Clock, sort_by}
use voucher_management_deskt.Review.Disjoint.{is_listed, review_rows_disjoint}

-- a clock that finds every row old enough
abbrev clock : Clock
clock = record {
  cutoff = λ now days. some now;
  text_le = λ s t. true;
  has_julianday = λ s. true;
  julian_le = λ s t. true;
}

samples-IsWellFormed : IsWellFormed sample_db.vouchers
samples-IsWellFormed = record { ascending = ground arith; keys_unique = ground arith }

review_rows_disjoint_example :
    ((is_listed 2 (revocation_rows clock sample_db "t" none)
        && is_listed 2 (warning_rows clock sample_db "t" none))
      ≡ false)
    × ((is_listed 2 (revocation_rows clock sample_db "t" none)
          && is_listed 2 (retention_rows clock sample_db "t" none))
        ≡ false)
    × ((is_listed 2 (warning_rows clock sample_db "t" none)
          && is_listed 2 (retention_rows clock sample_db "t" none))
        ≡ false)
review_rows_disjoint_example =
    review_rows_disjoint clock sample_db samples-IsWellFormed "t" "t" "t" none none none 2

-- a printed voucher with no date of a print is a candidate at once
printed_listed :
    is_listed 2 (
      revocation_rows clock
        (record sample_db { vouchers = record (row 2 "b") { print_state = printed } ∷ [] })
        "t"
        none)
    ≡ true
unfolding revocation_rows is_revocation_candidate sort_by
printed_listed = refl
