-- ===== src/SecurityRevocation/Records.antt =====
-- `record_security_revocation_request` and `record_security_revocations` of security_revocation.py.
pub mod Intent
mod Tests
use voucher_management_deskt.Database.Queries.{
  has_event, insert_event, is_revoked, is_revoke_requested, is_archived,
}
use voucher_management_deskt.Calendar.{Calendar, normalize_now}
use voucher_management_deskt.Database.Rows.{
  Details, Source, Event, operator, Db, Voucher, text, security_revoked, system, flag, has_id,
  security_revoke_requested,
}
use voucher_management_deskt.Prelude.{
  List, [], ◌∷◌, String, Bool, ℕ, true, Option, some, false, none, if◌then◌else◌, any_by, coalesce,
  ◌&&◌, not, eqb, is_empty, update_by, strip, ◌||◌, from_keys,
}
use voucher_management_deskt.Database.Action.{
  Action, ◌>>=◌, ◌>>◌, gets, lift, pure, modify, raise_if, value_error, missing_operator,
  transaction,
}

-- `SELECT id FROM vouchers WHERE id=? AND archived_at IS NULL`
abbrev pub is_live_row : ℕ → Db → Bool
is_live_row k db = any_by (λ v. has_id k v && not (is_archived v)) db.vouchers

pub request_in_transaction : String → String → ℕ → Action Bool
request_in_transaction stamp user k = do
  live ← gets (is_live_row k)
  confirmed ← gets (has_event is_revoked k)
  pending ← gets (has_event is_revoke_requested k)
  if not live
      then pure false
      else if confirmed || pending
      then pure true
      else (insert_event k security_revoke_requested stamp operator (some user) (
            some (
              ("reason", text "printed_unused_threshold")
              ∷ ("remote_delete_confirmed", flag false)
              ∷ []))
          >> pure true)

-- The result is false for a voucher that is unknown or archived.
pub record_security_revocation_request : Calendar → ℕ → String → String → Action Bool
unfolding request_in_transaction
record_security_revocation_request cal k requested_at windows_user = do
  stamp ← lift (normalize_now cal requested_at)
  raise_if (is_empty (strip windows_user)) (value_error missing_operator)
  transaction (request_in_transaction stamp (strip windows_user) k)

-- the two texts that `confirmation_source` may be
pub data Confirmation : Type 0 where
  delete_response direct_uuid_not_found : Confirmation

abbrev pub event_source : Confirmation → Source
event_source delete_response = operator
event_source direct_uuid_not_found = system

abbrev is_response : Confirmation → Bool
is_response delete_response = true
is_response direct_uuid_not_found = false

abbrev confirmation_text : Confirmation → String
confirmation_text delete_response = "delete_response"
confirmation_text direct_uuid_not_found = "direct_uuid_not_found"

pub revoked_details : Confirmation → Details
revoked_details c = some (
    ("reason", text "printed_unused_threshold")
    ∷ ("confirmation_source", text (confirmation_text c))
    ∷ ("remote_delete_confirmed", flag (is_response c))
    ∷ ("fresh_snapshot_confirmed_absent", flag false)
    ∷ ("direct_uuid_confirmed_absent", flag (not (is_response c)))
    ∷ ("credential_preserved_locally", flag true)
    ∷ [])

pub revoked_row : String → Voucher → Voucher
revoked_row stamp v = record v { present_on_controller = false; last_synced_at = stamp }

-- `ORDER BY id DESC LIMIT 1`: the last request of the voucher
pub last_request : ℕ → List Event → Option Event
last_request k [] = none
last_request k (e ∷ es) =
    coalesce (last_request k es)
      (if eqb e.voucher_id k && is_revoke_requested e.event_type then some e else none)

pub revoked_event : String → String → Confirmation → Event → Event
revoked_event stamp user c e = record e {
  event_type = security_revoked;
  occurred_at = stamp;
  source = event_source c;
  windows_user = some user;
  details = revoked_details c;
}

pub close_request : ℕ → String → String → Confirmation → Option Event → Action (Unit {0})
unfolding revoked_event revoked_details
close_request k stamp user c none =
    insert_event k security_revoked stamp (event_source c) (some user) (revoked_details c)
close_request k stamp user c (some e) = modify (λ db. record db {
  events = update_by (λ x. eqb x.id e.id) (revoked_event stamp user c) db.events;
})

-- the body of the loop for one voucher; the result says whether it is recorded
pub revoke_one : String → String → Confirmation → ℕ → Action Bool
unfolding close_request last_request revoked_row
revoke_one stamp user c k = do
  live ← gets (is_live_row k)
  already ← gets (has_event is_revoked k)
  if not live then pure false else if already then pure true else (do
    modify (λ db. record db { vouchers = update_by (has_id k) (revoked_row stamp) db.vouchers })
    request ← gets (λ db. last_request k db.events)
    close_request k stamp user c request
    pure true)

module _ (stamp user : String) (c : Confirmation) where
  pub revoke_all : List ℕ → Action (List ℕ)
  unfolding revoke_one
  revoke_all [] = pure []
  revoke_all (k ∷ ks) = do
    recorded ← revoke_one stamp user c k
    rest ← revoke_all ks
    pure (if recorded then k ∷ rest else rest)

-- `record_security_revocations` on a connection whose transaction the caller owns
pub revocations_on_connection : Calendar → List ℕ → String → String → Confirmation → Action (List ℕ)
unfolding revoke_all
revocations_on_connection cal voucher_ids revoked_at windows_user c = do
  stamp ← lift (normalize_now cal revoked_at)
  raise_if (is_empty (strip windows_user)) (value_error missing_operator)
  revoke_all stamp (strip windows_user) c (from_keys eqb voucher_ids)

-- `record_security_revocations` with a transaction of its own
pub record_security_revocations :
    Calendar → List ℕ → String → String → Confirmation → Action (List ℕ)
unfolding revoke_all
record_security_revocations cal voucher_ids revoked_at windows_user c = do
  stamp ← lift (normalize_now cal revoked_at)
  raise_if (is_empty (strip windows_user)) (value_error missing_operator)
  transaction (revoke_all stamp (strip windows_user) c (from_keys eqb voucher_ids))
