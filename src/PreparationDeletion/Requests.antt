-- ===== src/PreparationDeletion/Requests.antt =====
-- The facts that a deletion rests on, and `record_preparation_delete_requests` of
-- preparation_deletion.py: the durable intent before the remote DELETE.
pub mod Safety
mod Tests
use voucher_management_deskt.Database.Queries.{
  is_aligned, select_remote, insert_event, is_delete_requested, has_verified_print, has_event,
}
use voucher_management_deskt.Prelude.{
  List, [], ◌∷◌, String, Bool, ℕ, Option, map, length, if◌then◌else◌, some, none, strip, coalesce,
  codes, is_empty, ◌&&◌, is_nil, eqb, clean_ids, not, ltb,
}
use voucher_management_deskt.Database.Rows.{
  Voucher, PrintState, Db, is_controller, Origin, text, preparation_delete_requested,
  is_not_printed, is_unknown, operator,
}
use voucher_management_deskt.Database.Action.{
  Action, ◌>>=◌, ◌>>◌, Result, pure, Reason, gets, raise_if, raise, already_used, err,
  runtime_error, value_error, not_in_local_history, missing_timestamp, missing_reason,
  print_blocks_deletion, empty_selection, not_aligned, transaction, missing_operator,
  reason_too_long, needs_not_printed, ok, already_pending, lift,
}

pub record PreparationDeleteFact : Type 0 where
  pub voucher_id : ℕ
  pub unifi_id : String
  pub print_state : PrintState
  pub alignment_completed : Bool
  pub ever_used : Bool
  pub usage_observed : Bool
  pub origin : Origin
  pub name : String
  pub has_verified_print : Bool

-- the property `invalid_external_cleanup_allowed`
pub invalid_external_cleanup_allowed : PreparationDeleteFact → Bool
invalid_external_cleanup_allowed f =
    is_controller f.origin
    && is_empty f.name
    && not f.alignment_completed
    && is_unknown f.print_state
    && f.usage_observed
    && not f.ever_used
    && not f.has_verified_print

pub fact_of_row : Db → Voucher → PreparationDeleteFact
fact_of_row db v = record {
  voucher_id = v.id;
  unifi_id = v.unifi_id;
  print_state = v.print_state;
  alignment_completed = is_aligned v;
  ever_used = v.ever_used;
  usage_observed = v.usage_observed;
  origin = v.origin;
  name = strip v.name;
  has_verified_print = has_verified_print v.id db;
}

-- The dictionary that is returned, as its values; each value holds its key `unifi_id`.
pub preparation_delete_facts : ℕ → List String → Db → List PreparationDeleteFact
unfolding fact_of_row
preparation_delete_facts c unifi_ids db =
    map (fact_of_row db) (select_remote c (clean_ids unifi_ids) db)

abbrev pub max_reason : ℕ
max_reason = 1000

-- the length of a text in characters
abbrev pub text_length : String → ℕ
text_length s = length (codes s)

pub normalized_reason : String → Result String
normalized_reason reason =
    if is_empty (strip reason)
    then err (value_error missing_reason)
    else if ltb max_reason (text_length (strip reason))
    then err (value_error reason_too_long)
    else ok (strip reason)

-- the local variables of the loop over the selected rows
pub is_invalid_external : Db → Voucher → Bool
is_invalid_external db v =
    is_controller v.origin
    && is_empty (strip v.name)
    && not (is_aligned v)
    && is_unknown v.print_state
    && v.usage_observed
    && not v.ever_used
    && not (has_verified_print v.id db)

pub is_ordinary : Voucher → Bool
is_ordinary v = is_aligned v && is_not_printed v.print_state

-- why a row is refused, in the order of the tests
pub row_refusal : Db → Voucher → Option Reason
unfolding is_invalid_external is_ordinary
row_refusal db v =
    if v.ever_used
    then some already_used
    else if has_verified_print v.id db
    then some print_blocks_deletion
    else if not (is_ordinary v) && not (is_invalid_external db v)
    then (if not (is_aligned v) then some not_aligned else some needs_not_printed)
    else if has_event is_delete_requested v.id db
    then some already_pending
    else none

-- the first refusal of the loop
pub first_refusal : Db → List Voucher → Option Reason
first_refusal db [] = none
first_refusal db (v ∷ vs) = let rest = first_refusal db vs in coalesce (row_refusal db v) rest

pub workflow : Db → Voucher → String
workflow db v =
    if is_invalid_external db v then "invalid_external_missing_recipient" else "preparation_error"

pub refuse_row : Option Reason → Action (Unit {0})
refuse_row none = pure tt
refuse_row (some r) = raise (runtime_error r)

module _ (reason stamp user : String) where
  -- `for voucher_id in voucher_ids`, with `workflow_by_voucher` found in the first loop
  pub insert_requests : List (ℕ × String) → Action (Unit {0})
  insert_requests [] = pure tt
  insert_requests ((k, w) ∷ vs) =
      insert_event k preparation_delete_requested stamp operator (some user)
        (some (("reason", text reason) ∷ ("requested_at", text stamp) ∷ ("workflow", text w) ∷ []))
      >> insert_requests vs

  -- inside the transaction
  pub request_selection : ℕ → List String → Action (List ℕ)
  unfolding insert_requests first_refusal row_refusal workflow refuse_row
  request_selection c ids = do
    rows ← gets (select_remote c ids)
    raise_if (not (eqb (length rows) (length ids))) (runtime_error not_in_local_history)
    found ← gets (λ db. first_refusal db rows)
    refuse_row found
    plan ← gets (λ db. map (λ (v : Voucher). (v.id, workflow db v)) rows)
    insert_requests plan
    pure (map (λ (v : Voucher). v.id) rows)

pub record_preparation_delete_requests :
    ℕ → List String → String → String → String → Action (List ℕ)
unfolding normalized_reason
record_preparation_delete_requests c unifi_ids reason requested_at windows_user = do
  raise_if (is_nil (clean_ids unifi_ids)) (value_error empty_selection)
  why ← lift (normalized_reason reason)
  raise_if (is_empty (strip requested_at)) (value_error missing_timestamp)
  raise_if (is_empty (strip windows_user)) (value_error missing_operator)
  transaction
      (request_selection why (strip requested_at) (strip windows_user) c (clean_ids unifi_ids))
