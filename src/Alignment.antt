-- ===== src/Alignment.antt =====
-- alignment.py: an operator completes the local facts of vouchers, all of them or none.
pub mod Evidence
pub mod Success
mod Tests
use voucher_management_deskt.Database.Queries.{
  has_verified_print, is_aligned, insert_event, is_archived,
}
use voucher_management_deskt.Prelude.{
  List, [], ◌∷◌, Bool, String, ℕ, Option, eqb, some, upper, false, codes, ◌||◌, ◌&&◌, is_nil,
  update_by, filter_by, if◌then◌else◌, not, elem, opt_bool_eqb, any_by, strip, none, from_keys,
  codes_eqb, is_empty, length,
}
use voucher_management_deskt.Database.Rows.{
  Voucher, PrintState, Db, is_unknown, unknown, is_not_printed, not_printed, printed, has_id,
  is_printed, voucher_aligned, operator, flag, is_controller, text,
}
use voucher_management_deskt.Database.Action.{
  Action, ◌>>=◌, ◌>>◌, modify, Reason, raise_if, gets, raise, pure, value_error, bad_print_state,
  empty_selection, nominal_without_recipient, missing_timestamp, runtime_error,
  contradicts_print_evidence, not_in_local_history, missing_operator, invents_print, transaction,
  controller_needs_not_printed,
}

-- `str(print_state or "").strip().upper()`, and the test against PRINT_STATES
pub parse_print_state : String → Option PrintState
parse_print_state s =
    let word = upper (codes (strip s)) in
    if codes_eqb word (codes "UNKNOWN")
    then some unknown
    else if codes_eqb word (codes "NOT_PRINTED")
    then some not_printed
    else if codes_eqb word (codes "PRINTED")
    then some printed
    else none

abbrev pub same_state : PrintState → PrintState → Bool
same_state unknown s = is_unknown s
same_state not_printed s = is_not_printed s
same_state printed s = is_printed s

pub print_state_text : PrintState → String
print_state_text unknown = "UNKNOWN"
print_state_text not_printed = "NOT_PRINTED"
print_state_text printed = "PRINTED"

-- a physical print in the audit, or a row that says PRINTED
abbrev pub has_print_evidence : Db → Voucher → Bool
has_print_evidence db v = has_verified_print v.id db || is_printed v.print_state

-- the rows of the SELECT
abbrev pub in_selection : ℕ → List ℕ → Voucher → Bool
in_selection c ids v = eqb v.controller_id c && elem eqb v.id ids && not (is_archived v)

-- the tests between the SELECT and the loop, in their order
pub refusal : Bool → PrintState → Db → List Voucher → Option Reason
refusal is_nominal state db rows =
    if is_nominal && any_by (λ v. is_empty (strip v.name)) rows
    then some nominal_without_recipient
    else if not (is_printed state) && any_by (has_print_evidence db) rows
    then some contradicts_print_evidence
    else if is_printed state && any_by (λ v. not (has_print_evidence db v)) rows
    then some invents_print
    else if any_by (λ v. is_controller v.origin && not (has_print_evidence db v)) rows
        && not (is_not_printed state)
    then some controller_needs_not_printed
    else none

pub refuse : {A : Type 0} → Option Reason → Action A → Action A
refuse none m = m
refuse (some r) m = raise (value_error r)

pub is_unchanged : Bool → PrintState → Voucher → Bool
is_unchanged is_nominal state v =
    is_aligned v && opt_bool_eqb v.is_nominal (some is_nominal) && same_state v.print_state state

-- the UPDATE's SET clause
pub aligned_row : Bool → PrintState → String → Voucher → Voucher
aligned_row is_nominal state stamp v = record v {
  is_nominal = some is_nominal;
  print_state = state;
  alignment_completed_at = some stamp;
  nominality_redacted = false;
}

pub record AlignmentResult : Type 0 where
  pub updated_ids : List ℕ
  pub unchanged_ids : List ℕ

-- the body of the loop for a row that changes
pub align_row : Bool → PrintState → String → String → Voucher → Action (Unit {0})
unfolding aligned_row print_state_text
align_row is_nominal state stamp user v = do
  modify (λ db. record db {
    vouchers = update_by (has_id v.id) (aligned_row is_nominal state stamp) db.vouchers;
  })
  insert_event v.id voucher_aligned stamp operator (some user)
      (some (("is_nominal", flag is_nominal) ∷ ("print_state", text (print_state_text state)) ∷ []))

module _ (is_nominal : Bool) (state : PrintState) (stamp user : String) where
  -- `for row in rows`
  pub align_rows : List Voucher → Action AlignmentResult
  align_rows [] = pure (record { updated_ids = []; unchanged_ids = [] })
  align_rows (v ∷ vs) =
      let rest = align_rows vs in
      if is_unchanged is_nominal state v
      then (do r ← rest; pure (record r { unchanged_ids = v.id ∷ r.unchanged_ids }))
      else (do
        align_row is_nominal state stamp user v
        r ← rest
        pure (record r { updated_ids = v.id ∷ r.updated_ids }))

  -- inside the transaction
  pub align_selection : ℕ → List ℕ → Action AlignmentResult
  unfolding align_rows refusal refuse
  align_selection c ids = do
    rows ← gets (λ db. filter_by (in_selection c ids) db.vouchers)
    raise_if (not (eqb (length rows) (length ids))) (runtime_error not_in_local_history)
    reason ← gets (λ db. refusal is_nominal state db rows)
    refuse reason (align_rows rows)

pub with_state : Option PrintState → (PrintState → Action AlignmentResult) → Action AlignmentResult
with_state none m = raise (value_error bad_print_state)
with_state (some state) m = m state

-- `is_nominal` is a Bool here, so the source's test of its type has nothing to do.
pub align_vouchers : ℕ → List ℕ → Bool → String → String → String → Action AlignmentResult
unfolding with_state
align_vouchers c voucher_ids is_nominal print_state aligned_at windows_user =
    with_state (parse_print_state print_state) λ state. do
      raise_if (is_nil (from_keys eqb voucher_ids)) (value_error empty_selection)
      raise_if (is_empty (strip aligned_at)) (value_error missing_timestamp)
      raise_if (is_empty (strip windows_user)) (value_error missing_operator)
      transaction (
          align_selection is_nominal state (strip aligned_at) (strip windows_user) c
            (from_keys eqb voucher_ids))
