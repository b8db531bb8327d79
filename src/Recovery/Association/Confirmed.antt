-- ===== src/Recovery/Association/Confirmed.antt =====
-- What a confirmed association of an uncertain creation has done (uncertain_create_recovery.py).
use voucher_management_deskt.Database.Created.{mark_application_created_vouchers}
use voucher_management_deskt.Database.Queries.{has_event, select_remote}
use voucher_management_deskt.Database.WellFormed.{row_at}
use voucher_management_deskt.Prelude.{
  ℕ, List, Bool, String, true, ◌≡◌, false, elem, length, ◌==◌, eqb, some, clean_ids, strip, ◌⊎◌,
}
use voucher_management_deskt.Database.Rows.{
  Db, Voucher, uncertain_create_associated, application, not_printed,
}
use voucher_management_deskt.Json.{Python}
use voucher_management_deskt.Recovery.Marker.{Marker, missing_file}
use voucher_management_deskt.Recovery.Intent.{PendingCreateIntent}
use voucher_management_deskt.Recovery.Association.{
  associate, log_each, confirm_pending_create_intent,
}
use voucher_management_deskt.Database.Action.{Result, ok, err, os_error}
use voucher_management_deskt.Recovery.Association.Logged.{is_associated}

-- What the tables hold after an association that returned `ids`.
pub record IsAssociation (c : ℕ) (candidates : List String) (pending : PendingCreateIntent)
    (stamp : String) (db : Db) (ids : List ℕ) (after : Db) : Type 0 where
  pub same_controller : pending.controller_id ≡ c
  pub quantity : length candidates ≡ pending.quantity
  pub associated : length ids ≡ pending.quantity
  pub marked :
      (u : String)
      → elem ◌==◌ u candidates ≡ true
      → (v : Voucher) × (row_at c u db.vouchers ≡ some v)
        × (row_at c u after.vouchers
            ≡ some (record v {
              origin = application;
              is_nominal = some pending.is_nominal;
              print_state = not_printed;
              alignment_completed_at = some stamp;
              nominality_redacted = false;
            }))
  pub logged : (k : ℕ) → elem eqb k ids ≡ true → has_event is_associated k after ≡ true

module _ (c : ℕ) (candidates : List String) (pending : PendingCreateIntent) (stamp user : String)
    (db : Db) where
  abbrev keys : List String
  keys = clean_ids candidates

  abbrev rows : List Voucher
  rows = select_remote c keys db

  abbrev marking : Result (Unit {0}) × Db
  marking = mark_application_created_vouchers c keys pending.is_nominal (strip stamp) db

  abbrev run : Result (List ℕ) × Db
  run = associate c keys pending (strip stamp) user db

  abbrev logging : Result (Unit {0}) × Db
  logging =
      log_each uncertain_create_associated pending "operator_confirmed_uncertain_create"
        (strip stamp) user rows marking.1

-- The tables after the association, with the result and the marker: the marker is gone; or its removal,
-- which comes after the commit, has failed, and the call raises.
abbrev pub IsCleared : Bool → Marker → List ℕ → Db → Result (List ℕ) × Db × Marker → Type 0
IsCleared unlink_fails marker ids after out =
    ((unlink_fails ≡ false) × (out ≡ (ok ids, after, missing_file)))
    ⊎ ((unlink_fails ≡ true) × (out ≡ (err os_error, after, marker)))

module _ (py : Python) (c : ℕ) (candidate_ids : List String) (at_time windows_user : String)
    (marker : Marker) (unlink_fails : Bool) (db : Db) where
  abbrev outcome : Result (List ℕ) × Db × Marker
  outcome =
      confirm_pending_create_intent py c candidate_ids at_time windows_user marker unlink_fails db
