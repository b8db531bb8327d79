-- ===== src/PreparationDeletion/Resolution.antt =====
-- `confirm_preparation_delete_response` and `reconcile_preparation_delete_requests` of
-- preparation_deletion.py: how a recorded intent is closed.
pub mod Loop
pub mod Settled
mod Tests
use voucher_management_deskt.Database.Selection.{selected}
use voucher_management_deskt.Database.Queries.{is_delete_requested}
use mathlib.Core.Option
use voucher_management_deskt.Prelude.{
  List, [], ◌∷◌, String, Bool, ℕ, Option, false, length, if◌then◌else◌, some, none, find_by, strip,
  ◌==◌, elem, update_by, is_empty, ◌&&◌, is_nil, eqb, clean_ids, not,
}
use voucher_management_deskt.Database.Rows.{
  Voucher, Event, EventType, Db, Details, Detail, preparation_delete_not_applied, has_id,
  preparation_deleted, text,
}
use voucher_management_deskt.Database.Action.{
  Action, ◌>>=◌, ◌>>◌, pure, modify, gets, raise_if, runtime_error, value_error, missing_timestamp,
  response_mismatch, transaction,
}

-- `current.update(key=value)`
pub set_detail : String → Detail → List (String × Detail) → List (String × Detail)
set_detail k x [] = (k, x) ∷ []
set_detail k x ((j, y) ∷ d) =
    let rest = set_detail k x d in if j == k then (k, x) ∷ d else (j, y) ∷ rest

-- `_merge_details(raw, confirmed_at=..., confirmation_source=...)`
pub merge_details : Details → String → String → Details
unfolding set_detail
merge_details none stamp source =
    some (set_detail "confirmation_source" (text source) (("confirmed_at", text stamp) ∷ []))
merge_details (some d) stamp source =
    some (set_detail "confirmation_source" (text source) (set_detail "confirmed_at" (text stamp) d))

-- the remote id of an event's voucher, if the voucher satisfies the test
abbrev pub remote_id_of : (Voucher → Bool) → List Voucher → Event → Option String
remote_id_of p vs e =
    Option.map (λ (v : Voucher). v.unifi_id) (find_by (λ v. has_id e.voucher_id v && p v) vs)

abbrev pub join_request : Event → Option String → List (Event × String) → List (Event × String)
join_request e none rest = rest
join_request e (some u) rest = if is_delete_requested e.event_type then (e, u) ∷ rest else rest

pub requests_of : (Voucher → Bool) → List Voucher → List Event → List (Event × String)
requests_of p vs [] = []
requests_of p vs (e ∷ es) = join_request e (remote_id_of p vs e) (requests_of p vs es)

-- The rows that the JOIN of requests with vouchers returns, each with the remote id.
pub pending_requests : (Voucher → Bool) → Db → List (Event × String)
unfolding requests_of
pending_requests p db = requests_of p db.vouchers db.events

pub closed_event : EventType → String → Details → Event → Event
closed_event event_type stamp details e = record e {
  event_type = event_type;
  occurred_at = stamp;
  details = details;
}

-- `UPDATE voucher_events SET event_type=?, occurred_at=?, details_json=? WHERE id=?`
pub close_event : ℕ → EventType → String → Details → Action (Unit {0})
unfolding closed_event
close_event k event_type stamp details = modify (λ db. record db {
  events = update_by (λ e. eqb e.id k) (closed_event event_type stamp details) db.events;
})

-- the voucher's UPDATE after a deletion
pub absent_row : Voucher → Voucher
absent_row v = record v {
  present_on_controller = false;
  missing_observation_count = 0;
  missing_since = none;
}

module _ (stamp : String) where
  -- the loop of `confirm_preparation_delete_response`
  pub confirm_rows : List (Event × String) → Action (List ℕ)
  unfolding close_event absent_row
  confirm_rows [] = pure []
  confirm_rows ((e, u) ∷ rows) = do
    close_event e.id preparation_deleted stamp (merge_details e.details stamp "delete_response")
    modify (λ db. record db { vouchers = update_by (has_id e.voucher_id) absent_row db.vouchers })
    rest ← confirm_rows rows
    pure (e.voucher_id ∷ rest)

  -- `write`, on a connection whose transaction the caller owns
  pub confirm_response : ℕ → List String → Action (List ℕ)
  unfolding confirm_rows
  confirm_response c ids = do
    rows ← gets (pending_requests (selected c ids))
    raise_if (not (eqb (length rows) (length ids))) (runtime_error response_mismatch)
    confirm_rows rows

pub confirm_preparation_delete_response : ℕ → List String → String → Action (List ℕ)
confirm_preparation_delete_response c unifi_ids confirmed_at =
    if is_nil (clean_ids unifi_ids) then pure [] else do
      raise_if (is_empty (strip confirmed_at)) (value_error missing_timestamp)
      transaction (confirm_response (strip confirmed_at) c (clean_ids unifi_ids))

-- what a synchronization says of a requested deletion
pub data Resolution : Type 0 where
  not_applied deleted still_pending : Resolution

pub resolution : List String → List String → String → Resolution
resolution present absent u =
    if elem ◌==◌ u present
    then not_applied
    else if elem ◌==◌ u absent
    then deleted
    else still_pending

-- the vouchers whose requests were confirmed, and those whose requests were refuted
pub record Reconciled : Type 0 where
  pub deleted_ids : List ℕ
  pub not_applied_ids : List ℕ

module _ (present absent : List String) (stamp : String) where
  -- one turn of the loop; a request that stays pending is not touched
  pub resolve_request : Event → Resolution → Action Reconciled → Action Reconciled
  unfolding close_event
  resolve_request e not_applied rest = do
    close_event e.id preparation_delete_not_applied stamp
        (merge_details e.details stamp "fresh_snapshot_present")
    r ← rest
    pure (record r { not_applied_ids = e.voucher_id ∷ r.not_applied_ids })
  resolve_request e deleted rest = do
    close_event e.id preparation_deleted stamp
        (merge_details e.details stamp "direct_uuid_not_found")
    r ← rest
    pure (record r { deleted_ids = e.voucher_id ∷ r.deleted_ids })
  resolve_request e still_pending rest = rest

  pub resolve_rows : List (Event × String) → Action Reconciled
  unfolding resolve_request
  resolve_rows [] = pure (record { deleted_ids = []; not_applied_ids = [] })
  resolve_rows ((e, u) ∷ rows) = resolve_request e (resolution present absent u) (resolve_rows rows)

-- on the connection of the synchronization's transaction
pub reconcile_preparation_delete_requests :
    ℕ → List String → List String → String → Action Reconciled
unfolding resolve_rows
reconcile_preparation_delete_requests c present_ids absent_ids observed_at = do
  raise_if (is_empty (strip observed_at)) (value_error missing_timestamp)
  rows ← gets (pending_requests (λ v. eqb v.controller_id c))
  resolve_rows (clean_ids present_ids) (clean_ids absent_ids) (strip observed_at) rows
