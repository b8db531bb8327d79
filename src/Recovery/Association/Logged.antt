-- ===== src/Recovery/Association/Logged.antt =====
-- The loop of INSERTs into voucher_events of uncertain_create_recovery.py.
use voucher_management_deskt.Database.Queries.{has_event, insert_event, has_event-insert_event}
use voucher_management_deskt.Prelude.{
  ℕ, List, Bool, String, true, ◌≡◌, false, elem, eqb, ◌||◌, some, ◌∷◌, [], refl, ◌&&◌, arith,
  eqb_iff,
}
use voucher_management_deskt.Database.Rows.{
  EventType, Db, Voucher, uncertain_create_associated, text, operator,
}
use voucher_management_deskt.Recovery.Intent.{PendingCreateIntent}
use voucher_management_deskt.Recovery.Association.{log_each, row_ids}
use voucher_management_deskt.Database.Action.{ok, for_each}

abbrev pub is_associated : EventType → Bool
is_associated uncertain_create_associated = true
is_associated _ = false

logged_first :
    (k : ℕ) (v : Voucher) (rows : List Voucher) (next db : Db)
    → (elem eqb k (row_ids (v ∷ rows)) || has_event is_associated k db) ≡ true
    → has_event is_associated k next ≡ (has_event is_associated k db || (eqb v.id k && true))
    → (elem eqb k (row_ids rows) || has_event is_associated k next) ≡ true
logged_first k v rows next db h e = ground (arith, eqb_iff k v.id, eqb_iff v.id k)

-- the loop of INSERTs returns, writes to the log alone, and logs an event for each row
pub log_each-events :
    (pending : PendingCreateIntent) (workflow stamp user : String) (rows : List Voucher) (db : Db)
    → ((log_each uncertain_create_associated pending workflow stamp user rows db).0 ≡ ok tt)
      × ((log_each uncertain_create_associated pending workflow stamp user rows db).1.vouchers
          ≡ db.vouchers)
      × ((k : ℕ)
          → (elem eqb k (row_ids rows) || has_event is_associated k db) ≡ true
          → has_event is_associated k
              (log_each uncertain_create_associated pending workflow stamp user rows db).1
            ≡ true)
unfolding log_each for_each insert_event
log_each-events pending workflow stamp user [] db = (refl, refl, λ k h. h)
log_each-events pending workflow stamp user (v ∷ rows) db =
    let details =
      some (("requested_at", text pending.requested_at) ∷ ("workflow", text workflow) ∷ []) in
    let next =
      (insert_event v.id uncertain_create_associated stamp operator (some user) details db).1 in
    let rest = log_each-events pending workflow stamp user rows next in
    (
      rest.0,
      rest.1,
      λ k h. rest.2 k (
          logged_first k v rows next db h (
            has_event-insert_event is_associated k v.id uncertain_create_associated stamp operator
              (some user) details db)),
    )
