-- ===== src/Database/Queries.antt =====
-- Queries that several modules make: events and prints of a voucher, the rows of a selection, and
-- the INSERT into voucher_events.
use voucher_management_deskt.Database.Action.{Action, modify}
use voucher_management_deskt.Database.Selection.{selected}
use voucher_management_deskt.Prelude.{
  ℕ, String, Bool, true, false, List, eqb, any_by, filter_by, is_some, ◌∷◌, not, [], is_empty,
  Option, strip, or_empty, ◌&&◌, ◌++◌, ◌≡◌, ◌||◌, any_by-append, ◌∙◌, arith,
}
use voucher_management_deskt.Database.Rows.{
  Voucher, Event, EventType, Db, VoucherPrint, Source, Details, preparation_delete_requested,
  security_revoke_requested, security_revoked, next_id,
}

abbrev pub is_delete_requested : EventType → Bool
is_delete_requested preparation_delete_requested = true
is_delete_requested _ = false

abbrev pub is_revoke_requested : EventType → Bool
is_revoke_requested security_revoke_requested = true
is_revoke_requested _ = false

abbrev pub is_revoked : EventType → Bool
is_revoked security_revoked = true
is_revoked _ = false

-- `EXISTS(SELECT 1 FROM voucher_events WHERE voucher_id=? AND event_type ...)`
abbrev pub has_event : (EventType → Bool) → ℕ → Db → Bool
has_event p k db = any_by (λ (e : Event). eqb e.voucher_id k && p e.event_type) db.events

-- `EXISTS(SELECT 1 FROM voucher_prints WHERE voucher_id=?)`
abbrev pub has_verified_print : ℕ → Db → Bool
has_verified_print k db = any_by (λ (p : VoucherPrint). eqb p.voucher_id k) db.prints

abbrev pub is_archived : Voucher → Bool
is_archived v = is_some v.archived_at

-- `bool(str(row["alignment_completed_at"] or "").strip())`
abbrev pub is_aligned : Voucher → Bool
is_aligned v = not (is_empty (strip (or_empty v.alignment_completed_at)))

-- `controller_id=? AND unifi_id IN (...) AND archived_at IS NULL ORDER BY id`
abbrev pub select_remote : ℕ → List String → Db → List Voucher
select_remote c ids db = filter_by (λ v. selected c ids v && not (is_archived v)) db.vouchers

-- the INSERT; SQLite gives the rowid
unfoldable pub insert_event :
    ℕ → EventType → String → Source → Option String → Details → Action (Unit {0})
insert_event voucher_id event_type occurred_at source user details = modify (λ db. record db {
  events =
      db.events
      ++ record {
        id = next_id (λ e. e.id) db.events;
        voucher_id = voucher_id;
        event_type = event_type;
        occurred_at = occurred_at;
        source = source;
        windows_user = user;
        details = details;
      }
        ∷ [];
})

-- An INSERT adds the event, and takes none away.
pub has_event-insert_event :
    (p : EventType → Bool) (j k : ℕ) (t : EventType) (at_time : String) (source : Source)
    (user : Option String) (details : Details) (db : Db)
    → has_event p j (insert_event k t at_time source user details db).1
      ≡ (has_event p j db || (eqb k j && p t))
unfolding insert_event
has_event-insert_event p j k t at_time source user details db =
    any_by-append (λ (e : Event). eqb e.voucher_id j && p e.event_type) db.events _ ∙ ground arith
