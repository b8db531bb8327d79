-- ===== src/Recovery/Reporting.antt =====
-- create_reporting_recovery.py: the marker of a confirmed creation whose classification is not yet in the
-- database, and its reconciliation on an initialised database. `unlink_fails` says whether the
-- removal of the marker fails.
mod Tests
pub mod Classified
use voucher_management_deskt.Database.Selection.{selected}
use voucher_management_deskt.Database.Rows.{Db}
use voucher_management_deskt.Prelude.{
  ℕ, Bool, Option, if◌then◌else◌, true, false, List, none, String, is_nil, some, ltb, not, ◌||◌,
  clean_ids, eqb, is_empty, count_by, strip, length,
}
use voucher_management_deskt.Prelude.Options.{◌>>=◌}
use voucher_management_deskt.Json.{Python, Fields, find, obj, num, pos, arr, bool, text, field, end}
use voucher_management_deskt.Recovery.Marker.{
  Marker, missing_file, holds, exists, int_from, ids_from, bool_from, text_from, is_format_one,
  texts,
}
use voucher_management_deskt.Database.Action.{
  Result, ok, err, runtime_error, value_error, Action, transaction, invalid_marker, invalid_intent,
  marker_exists, os_error,
}
use voucher_management_deskt.Database.Created.{mark_application_created_vouchers}

-- Its fields are also the arguments of `write_pending_create_reporting`.
pub record PendingCreateReporting : Type 0 where
  pub controller_id : ℕ
  pub voucher_ids : List String
  pub is_nominal : Bool
  pub confirmed_at : String

module _ (py : Python) where
  decode_reporting : Fields → Option PendingCreateReporting
  decode_reporting fs = do
    controller_id ← int_from 1 (find "controller_id" fs)
    voucher_ids ← ids_from (find "voucher_ids" fs)
    is_nominal ← bool_from (find "is_nominal" fs)
    (let confirmed_at = text_from py (find "confirmed_at" fs) in
        if is_nil voucher_ids || is_empty confirmed_at
        then none
        else some (record {
          controller_id = controller_id;
          voucher_ids = voucher_ids;
          is_nominal = is_nominal;
          confirmed_at = confirmed_at;
        }))

  abbrev decoded : Option PendingCreateReporting → Result (Option PendingCreateReporting)
  decoded none = err (runtime_error invalid_marker)
  decoded (some p) = ok (some p)

  pub load_pending_create_reporting : Marker → Result (Option PendingCreateReporting)
  load_pending_create_reporting missing_file = ok none
  load_pending_create_reporting (holds (obj fs)) =
      if is_format_one (find "format" fs)
      then decoded (decode_reporting fs)
      else err (runtime_error invalid_marker)
  load_pending_create_reporting _ = err (runtime_error invalid_marker)

reporting_payload : PendingCreateReporting → Fields
reporting_payload p = field "format" (num (pos 1)) (
    field "controller_id" (num (pos p.controller_id)) (
      field "voucher_ids" (arr (texts p.voucher_ids))
        (field "is_nominal" (bool p.is_nominal) (field "confirmed_at" (text p.confirmed_at) end))))

pub write_pending_create_reporting :
    Bool → PendingCreateReporting → Marker → Result (Unit {0}) × Marker
unfolding reporting_payload
write_pending_create_reporting io_fails p marker =
    if ltb p.controller_id 1 || is_nil (clean_ids p.voucher_ids) || is_empty (strip p.confirmed_at)
    then (err (value_error invalid_intent), marker)
    else if exists marker
    then (err (runtime_error marker_exists), marker)
    else if io_fails
    then (err os_error, marker)
    else (
      ok tt,
      holds (
          obj (
            reporting_payload (record p {
              voucher_ids = clean_ids p.voucher_ids;
              confirmed_at = strip p.confirmed_at;
            }))),
    )

-- a result with the tables and the marker
abbrev Outcome : Type 0
Outcome = Result Bool × Db × Marker

-- when the classification is committed, `clear_pending_create_reporting` removes the marker, or fails
abbrev after_marking : Bool → Result (Unit {0}) → Db → Marker → Outcome
after_marking unlink_fails (err e) db marker = (err e, db, marker)
after_marking true (ok a) db marker = (err os_error, db, marker)
after_marking false (ok a) db marker = (ok true, db, missing_file)

abbrev mark_pending : PendingCreateReporting → Action (Unit {0})
mark_pending p =
    transaction
      (mark_application_created_vouchers p.controller_id p.voucher_ids p.is_nominal p.confirmed_at)

-- `controller_id` is given and another one
abbrev is_other : Option ℕ → ℕ → Bool
is_other none d = false
is_other (some c) d = not (eqb d c)

reconcile_loaded : Bool → Option ℕ → Marker → Result (Option PendingCreateReporting) → Db → Outcome
reconcile_loaded unlink_fails c marker (err e) db = (err e, db, marker)
reconcile_loaded unlink_fails c marker (ok none) db = (ok false, db, marker)
reconcile_loaded unlink_fails c marker (ok (some p)) db =
    if is_other c p.controller_id
    then (ok false, db, marker)
    else if not
        (eqb (count_by (selected p.controller_id p.voucher_ids) db.vouchers) (length p.voucher_ids))
    then (ok false, db, marker)
    else (let (r, db') = mark_pending p db in after_marking unlink_fails r db' marker)

module _ (py : Python) where
  pub reconcile_pending_create_reporting : Bool → Option ℕ → Marker → Db → Outcome
  unfolding reconcile_loaded
  reconcile_pending_create_reporting unlink_fails c marker db =
      reconcile_loaded unlink_fails c marker (load_pending_create_reporting py marker) db
