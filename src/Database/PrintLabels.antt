-- ===== src/Database/PrintLabels.antt =====
-- The arguments of `Database.record_print_audit` of database.py, and the vouchers that its labels name.
pub mod Named
use voucher_management_deskt.Database.Rows.{Voucher}
use voucher_management_deskt.Prelude.{
  List, [], ◌∷◌, Bool, String, Option, ℕ, map, count_by, eqb, if◌then◌else◌, without_dashes, false,
  ◌==◌, filter_by, is_empty, ◌&&◌, strip, from_keys, not, some, length, ◌*◌, ◌||◌, any_by, true,
  is_nil, none,
}
use voucher_management_deskt.Database.Action.{
  Action, ◌>>=◌, pure, bad_copies, Result, gets, ok, err, runtime_error, lift, unknown_voucher,
  value_error, missing_audit_id, missing_timestamp, missing_operator, ids_mismatch, missing_code,
}

-- the keyword arguments
pub record PrintAudit : Type 0 where
  pub audit_id : String
  pub codes : List String
  pub output_file : String
  pub unifi_ids : Option (List String)
  pub document_copies : ℕ
  pub printed_at : String
  pub windows_user : String

-- `Counter(xs)`, in the order of first occurrence
unfoldable pub counter : List String → List (String × ℕ)
counter xs = map (λ k. (k, count_by (λ x. x == k) xs)) (from_keys ◌==◌ xs)

-- `str(code).strip().replace("-", "") for code in codes if str(code).strip()`
unfoldable pub normalized_codes : List String → List String
normalized_codes codes = map without_dashes (filter_by (λ s. not (is_empty s)) (map strip codes))

-- the row of a label: by its remote id, or by its code for a legacy caller
unfoldable pub names_row : Bool → ℕ → String → Voucher → Bool
names_row by_id c key v =
    eqb v.controller_id c && (if by_id then v.unifi_id == key else without_dashes v.code == key)

unfoldable pub only_row : List Voucher → Result ℕ
only_row (v ∷ []) = ok v.id
only_row _ = err (runtime_error unknown_voucher)

-- `expected_prints`: the voucher of every label, with the physical copies
unfoldable pub expected_prints : Bool → ℕ → ℕ → List (String × ℕ) → Action (List (ℕ × ℕ))
unfolding names_row only_row
expected_prints by_id c copies [] = pure []
expected_prints by_id c copies ((key, labels) ∷ rest) = do
  rows ← gets (λ db. filter_by (names_row by_id c key) db.vouchers)
  k ← lift (only_row rows)
  more ← expected_prints by_id c copies rest
  pure ((k, labels * copies) ∷ more)

unfoldable pub label_counts : List String → Option (List String) → Result (Bool × List (String × ℕ))
unfolding counter normalized_codes
label_counts codes none = ok (false, counter (normalized_codes codes))
label_counts codes (some ids) =
    if not (eqb (length (map strip ids)) (length codes)) || any_by is_empty (map strip ids)
    then err (value_error ids_mismatch)
    else ok (true, counter (map strip ids))

-- the labels to resolve, or the reason why the arguments are refused
unfoldable pub labels_of : PrintAudit → Result (Bool × List (String × ℕ))
unfolding label_counts
labels_of a =
    if is_empty (strip a.audit_id)
    then err (value_error missing_audit_id)
    else if is_empty (strip a.printed_at)
    then err (value_error missing_timestamp)
    else if is_empty (strip a.windows_user)
    then err (value_error missing_operator)
    else if eqb a.document_copies 0
    then err (value_error bad_copies)
    else if is_nil (normalized_codes a.codes)
    then err (value_error missing_code)
    else label_counts a.codes a.unifi_ids
