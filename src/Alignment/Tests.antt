-- ===== src/Alignment/Tests.antt =====
-- Alignments of the first row of the sample database (alignment.py).
use voucher_management_deskt.Database.Queries.{insert_event}
use voucher_management_deskt.Database.Action.{transaction, ok, err, value_error, invents_print}
use voucher_management_deskt.Alignment.Success.{IsAlignment, IsAlignment-completes}
use voucher_management_deskt.Samples.{sample_db}
use voucher_management_deskt.Prelude.{
  from_keys, eqb, ◌∷◌, strip, ◌≡◌, [], some, true, length, refl, upper,
}
use voucher_management_deskt.Database.Rows.{PrintState}
use voucher_management_deskt.Alignment.{
  align_vouchers, refusal, AlignmentResult, parse_print_state, with_state, align_selection, refuse,
  align_rows, align_row, in_selection, is_unchanged,
}

abbrev result : AlignmentResult
result = record { updated_ids = 1 ∷ []; unchanged_ids = [] }

aligned_first :
    (align_vouchers 1 (1 ∷ 1 ∷ []) true "not_printed" "2026-01-03" "ada" sample_db).0 ≡ ok result
unfolding align_vouchers with_state parse_print_state align_selection align_rows align_row refusal
    upper refuse is_unchanged insert_event transaction strip from_keys
aligned_first = refl

IsAlignment-completes_example :
    (state : PrintState) × (parse_print_state "not_printed" ≡ some state)
    × IsAlignment true state
        (in_selection 1 (from_keys eqb (1 ∷ 1 ∷ [])))
        (length (from_keys eqb (1 ∷ 1 ∷ [])))
        sample_db
        (align_vouchers 1 (1 ∷ 1 ∷ []) true "not_printed" "2026-01-03" "ada" sample_db).1
        result
IsAlignment-completes_example =
    IsAlignment-completes 1 (1 ∷ 1 ∷ []) true "not_printed" "2026-01-03" "ada" sample_db
      aligned_first

invented_print :
    (align_vouchers 1 (1 ∷ []) true "printed" "2026-01-03" "ada" sample_db).0
    ≡ err (value_error invents_print)
unfolding align_vouchers with_state parse_print_state align_selection refusal refuse transaction
    upper strip from_keys
invented_print = refl
