-- ===== src/Recovery/Association.antt =====
-- `confirm_pending_create_intent_to_path` and `reject_pending_create_intent_to_path` of
-- uncertain_create_recovery.py, on an initialised database. `unlink_fails` says whether
-- the removal of the marker fails.
mod Tests
pub mod Logged
pub mod Confirmed
use voucher_management_deskt.Database.Rows.{
  EventType, Voucher, Db, uncertain_create_associated, operator, text,
  uncertain_create_association_rejected,
}
use voucher_management_deskt.Prelude.{
  Bool, true, false, List, ℕ, Option, String, is_empty, not, map, some, eqb, strip, ◌||◌, length,
  if◌then◌else◌, ◌∷◌, clean_ids, [], none,
}
use voucher_management_deskt.Json.{Python}
use voucher_management_deskt.Recovery.Marker.{Marker, missing_file}
use voucher_management_deskt.Recovery.Intent.{PendingCreateIntent, load_pending_create_intent}
use voucher_management_deskt.Database.Action.{
  Action, ◌>>=◌, ◌>>◌, lift, raise_if, gets, pure, for_each, transaction, runtime_error,
  value_error, Result, ok, err, no_pending_intent, candidates_missing, other_controller,
  missing_operator, quantity_mismatch, os_error,
}
use voucher_management_deskt.Database.Queries.{select_remote, insert_event}
use voucher_management_deskt.Database.Created.{mark_application_created_vouchers}

-- the intent, which must be there and of this controller
intent_of : ℕ → Option PendingCreateIntent → Result PendingCreateIntent
intent_of c none = err (runtime_error no_pending_intent)
intent_of c (some p) = if eqb p.controller_id c then ok p else err (runtime_error other_controller)

abbrev loaded : ℕ → Result (Option PendingCreateIntent) → Result PendingCreateIntent
loaded c (ok p) = intent_of c p
loaded c (err e) = err e

-- one event for each voucher, with the intent's timestamp
pub log_each :
    EventType → PendingCreateIntent → String → String → String → List Voucher → Action (Unit {0})
log_each event_type pending workflow stamp user rows = for_each rows (λ (v : Voucher).
    insert_event v.id event_type stamp operator (some user)
      (some (("requested_at", text pending.requested_at) ∷ ("workflow", text workflow) ∷ [])))

abbrev row_ids : List Voucher → List ℕ
row_ids rows = map (λ (v : Voucher). v.id) rows

-- the SELECT, and the test of its number of rows
abbrev candidate_rows : ℕ → List String → Action (List Voucher)
candidate_rows c ids = do
  rows ← gets (select_remote c ids)
  raise_if (not (eqb (length rows) (length ids))) (runtime_error candidates_missing)
  pure rows

associate : ℕ → List String → PendingCreateIntent → String → String → Action (List ℕ)
unfolding log_each
associate c ids pending stamp user = do
  rows ← candidate_rows c ids
  mark_application_created_vouchers c ids pending.is_nominal stamp
  log_each uncertain_create_associated pending "operator_confirmed_uncertain_create" stamp user rows
  pure (row_ids rows)

-- After the commit `clear_pending_create_intent` removes the marker, which may fail; an exception before
-- leaves the marker.
abbrev clear_after : {A : Type 0} → Bool → Result A → Db → Marker → Result A × Db × Marker
clear_after unlink_fails (err e) db marker = (err e, db, marker)
clear_after true (ok a) db marker = (err os_error, db, marker)
clear_after false (ok a) db marker = (ok a, db, missing_file)

module _ (py : Python) (c : ℕ) (candidate_ids : List String) (at_time windows_user : String)
    (marker : Marker) where
  confirm_action : Action (List ℕ)
  unfolding associate
  confirm_action = do
    pending ← lift (loaded c (load_pending_create_intent py marker))
    raise_if (not (eqb (length (clean_ids candidate_ids)) pending.quantity))
        (runtime_error quantity_mismatch)
    raise_if (is_empty (strip at_time) || is_empty (strip windows_user))
        (value_error missing_operator)
    transaction (associate c (clean_ids candidate_ids) pending (strip at_time) (strip windows_user))

  -- the result, the tables, and the marker file
  pub confirm_pending_create_intent : Bool → Db → Result (List ℕ) × Db × Marker
  confirm_pending_create_intent unlink_fails db =
      let (r, db') = confirm_action db in clear_after unlink_fails r db' marker

  reject_action : Action (List ℕ)
  reject_action = do
    pending ← lift (loaded c (load_pending_create_intent py marker))
    raise_if (is_empty (strip at_time) || is_empty (strip windows_user))
        (value_error missing_operator)
    rows ← candidate_rows c (clean_ids candidate_ids)
    transaction (
        log_each uncertain_create_association_rejected pending "operator_rejected_uncertain_create"
          (strip at_time) (strip windows_user) rows)
    pure (row_ids rows)

  pub reject_pending_create_intent : Bool → Db → Result (List ℕ) × Db × Marker
  reject_pending_create_intent unlink_fails db =
      let (r, db') = reject_action db in clear_after unlink_fails r db' marker
