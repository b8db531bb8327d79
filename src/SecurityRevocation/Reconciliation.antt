-- ===== src/SecurityRevocation/Reconciliation.antt =====
-- `pending_security_revocation_ids` and `reconcile_pending_security_revocations` of
-- security_revocation.py.
pub mod Omission
mod Tests
use voucher_management_deskt.SecurityRevocation.Records.{
  revocations_on_connection, direct_uuid_not_found,
}
use voucher_management_deskt.Database.Queries.{has_event, is_revoke_requested, is_revoked}
use voucher_management_deskt.Database.Rows.{
  Db, Event, Voucher, security_revoke_not_applied, system, text, flag,
}
use voucher_management_deskt.Calendar.{Calendar, normalize_now}
use voucher_management_deskt.Prelude.{
  List, [], ◌∷◌, String, Option, ℕ, map, if◌then◌else◌, update_by, Bool, is_nil, clean_ids,
  filter_by, ◌&&◌, elem, true, some, eqb, ◌==◌, none, not, strip, false, is_empty,
}
use voucher_management_deskt.Database.Action.{
  Action, ◌>>=◌, ◌>>◌, gets, modify, pure, lift, raise_if, value_error, missing_operator,
}

-- a request that no confirmed revocation has closed
abbrev pub is_pending : Db → Voucher → Bool
is_pending db v = has_event is_revoke_requested v.id db && not (has_event is_revoked v.id db)

abbrev in_scope : Option ℕ → Voucher → Bool
in_scope none v = true
in_scope (some c) v = eqb v.controller_id c

pub pending_security_revocation_ids : Option ℕ → Db → List ℕ
pending_security_revocation_ids c db =
    map (λ (v : Voucher). v.id) (filter_by (λ v. is_pending db v && in_scope c v) db.vouchers)

-- the rows of the first query
abbrev pub pending_rows : ℕ → Db → List Voucher
pending_rows c db = filter_by (λ v. is_pending db v && eqb v.controller_id c) db.vouchers

abbrev pub ids_in : List String → List Voucher → List ℕ
ids_in remote rows =
    map (λ (v : Voucher). v.id) (filter_by (λ v. elem ◌==◌ (strip v.unifi_id) remote) rows)

pub not_applied_event : String → String → Event → Event
not_applied_event stamp user e = record e {
  event_type = security_revoke_not_applied;
  occurred_at = stamp;
  source = system;
  windows_user = some user;
  details = some (
      ("reason", text "printed_unused_threshold")
      ∷ ("remote_delete_confirmed", flag false)
      ∷ ("fresh_snapshot_confirmed_present", flag true)
      ∷ []);
}

-- `close_present`: every request of the listed vouchers
pub close_present : String → String → List ℕ → Action (Unit {0})
unfolding not_applied_event
close_present stamp user ks = modify (λ db. record db {
  events =
      update_by (λ e. elem eqb e.voucher_id ks && is_revoke_requested e.event_type)
        (not_applied_event stamp user) db.events;
})

pub close_if_present : Calendar → String → String → List ℕ → Action (Unit {0})
unfolding close_present
close_if_present cal observed_at windows_user ks = if is_nil ks then pure tt else do
  stamp ← lift (normalize_now cal observed_at)
  raise_if (is_empty (strip windows_user)) (value_error missing_operator)
  close_present stamp (strip windows_user) ks

-- on the connection of the synchronization's transaction
pub reconcile_pending_security_revocations :
    Calendar → ℕ → List String → List String → String → String → Action (List ℕ)
unfolding close_if_present
reconcile_pending_security_revocations cal c live_ids absent_ids observed_at windows_user = do
  rows ← gets (pending_rows c)
  close_if_present cal observed_at windows_user (ids_in (clean_ids live_ids) rows)
  if is_nil (ids_in (clean_ids absent_ids) rows)
      then pure []
      else revocations_on_connection cal (ids_in (clean_ids absent_ids) rows) observed_at
          windows_user direct_uuid_not_found
