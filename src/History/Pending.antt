-- ===== src/History/Pending.antt =====
-- pending_print_audit.json of history.py: `_load_pending_print`, `_write_pending_print`,
-- `_persist_pending_print`, `_clear_pending_print` and the calls that move the state on.
pub mod RoundTrip
pub mod Tests
use voucher_management_deskt.History.Values.{
  is_text, text_or_empty, is_hashable, items_eqb, rows_json, json_eqb,
}
use voucher_management_deskt.Recovery.Marker.{Marker, holds, int_from, missing_file, is_format_one}
use voucher_management_deskt.Database.Action.{
  Result, history_error, ok, err, pending_present, pending_changed, other_pending,
  pending_not_saved, no_prepared, damaged_pending, already_submitted, pending_not_cleared,
  type_error,
}
use voucher_management_deskt.Prelude.{
  String, strip, Bool, not, Option, List, ◌==◌, some, if◌then◌else◌, true, is_empty, none, false,
  ◌&&◌, is_some, ◌||◌, [], eqb, is_nil, leb, length, codes, ◌∷◌,
}
use voucher_management_deskt.Json.{
  Json, Items, Fields, Python, find, field, num, arr, cons, pos, obj, text, items, end, nil,
}
use voucher_management_deskt.History.Base.{Platform, Env, Action, ◌>>>◌, ◌>>=◌, guard, reads}
use voucher_management_deskt.Recovery.Intent.{all_hex, lower, is_digest}
use Prim.Native.Char.{code}

pub data PrintStage : Type 0 where
  prepared submitted : PrintStage

pub record PendingPrintAudit : Type 0 where
  pub state : PrintStage
  pub audit_id : String
  pub records : List Fields

abbrev pub is_submitted : PrintStage → Bool
is_submitted submitted = true
is_submitted prepared = false

abbrev pub stage_text : PrintStage → String
stage_text prepared = "prepared"
stage_text submitted = "submitted"

-- `ch in "0123456789abcdef-"`, for every character of `value.lower()`
unfoldable pub all_hex_or_dash : String → Bool
all_hex_or_dash String.[] = true
all_hex_or_dash (String.◌∷◌ c s) =
    (all_hex (String.◌∷◌ c String.[]) || eqb (code c) b'-') && all_hex_or_dash s

-- the test of an audit id, negated
unfoldable pub is_audit_id : String → Bool
is_audit_id s = not (is_empty s) && leb (length (codes s)) 128 && all_hex_or_dash (lower s)

module _ (py : Python) (os : Platform) where
  -- `payload.get("format") in {1, 2}`; true where it is 1
  unfoldable pub format_of : Option Json → Result Bool
  format_of f =
      if not (is_hashable f) then err type_error else if is_format_one f then ok true else elim f [
        | some v ↦
            if json_eqb false v (num (pos 2)) then ok false else err (history_error damaged_pending)
        | none ↦ err (history_error damaged_pending)
      ]

  unfoldable pub stage_of : String → Result PrintStage
  stage_of s =
      if s == "prepared"
      then ok prepared
      else if s == "submitted"
      then ok submitted
      else err (history_error damaged_pending)

  -- the tests of one record
  unfoldable pub is_print_record : String → Fields → Bool
  is_print_record audit_id r =
      is_text "print" (find "event" r)
      && is_text audit_id (find "print_job_id" r)
      && is_digest (lower (text_or_empty py (find "voucher_id" r)))
      && not (is_empty (strip (text_or_empty py (find "timestamp" r))))
      && not (is_empty (text_or_empty py (find "output_file" r)))
      && os.file_name (text_or_empty py (find "output_file" r))
        == text_or_empty py (find "output_file" r)
      && is_some (int_from 1 (find "document_copies" r))
      && is_some (int_from 1 (find "physical_copies" r))

  unfoldable pub records_of : String → Items → Result (List Fields)
  records_of audit_id nil = ok []
  records_of audit_id (cons (obj r) vs) =
      guard (is_print_record audit_id r) (history_error damaged_pending) >>= λ _.
      records_of audit_id vs >>= λ rs. ok (r ∷ rs)
  records_of audit_id (cons _ vs) = err (history_error damaged_pending)

  unfoldable pub audit_of : PrintStage → Items → Fields → Result PendingPrintAudit
  audit_of state vs payload =
      let audit_id = strip (text_or_empty py (find "audit_id" payload)) in
      guard (is_audit_id audit_id && not (is_nil (items vs))) (history_error damaged_pending)
      >>= λ _. records_of audit_id vs >>= λ rs.
          ok (record { state = state; audit_id = audit_id; records = rs })

  -- the payload with its `records`, once the format is known
  unfoldable pub audit_from : Bool → Option Json → Fields → Result PendingPrintAudit
  audit_from true (some (arr vs)) payload = audit_of submitted vs payload
  audit_from false (some (arr vs)) payload =
      stage_of (strip (text_or_empty py (find "state" payload))) >>= λ state.
      audit_of state vs payload
  audit_from first _ payload = err (history_error damaged_pending)

  unfoldable pub pending_of : Fields → Result PendingPrintAudit
  pending_of payload = format_of (find "format" payload) >>= λ first.
      audit_from first (find "records" payload) payload

  -- `_load_pending_print`
  unfoldable pub load_pending_print : Marker → Result (Option PendingPrintAudit)
  load_pending_print missing_file = ok none
  load_pending_print (holds (obj payload)) = pending_of payload >>= λ p. ok (some p)
  load_pending_print _ = err (history_error damaged_pending)

  -- `pending_print_state`
  unfoldable pub pending_print_state : Marker → Result String
  pending_print_state m =
      load_pending_print m >>= λ p. ok (elim p [ none ↦ "" | some a ↦ stage_text a.state ])

  -- `has_pending_print_audit`
  unfoldable pub has_pending_print_audit : Marker → Result Bool
  has_pending_print_audit m = load_pending_print m >>= λ p. ok (is_some p)

  -- `assert_no_pending_print_audit`
  unfoldable pub assert_no_pending_print_audit : Action (Unit {0})
  assert_no_pending_print_audit d =
      (has_pending_print_audit d.pending >>= λ p. guard (not p) (history_error pending_present), d)

-- the marker is of the same print
unfoldable pub is_same_job : PendingPrintAudit → List Fields → String → Bool
is_same_job current records audit_id =
    current.audit_id == audit_id && items_eqb true (rows_json current.records) (rows_json records)

-- the payload that `_write_pending_print` dumps
unfoldable pub pending_json : PrintStage → String → List Fields → Fields
pending_json state audit_id records = field "format" (num (pos 2)) (
    field "state" (text (stage_text state))
      (field "audit_id" (text audit_id) (field "records" (arr (rows_json records)) end)))

module _ (py : Python) (os : Platform) (env : Env) where
  -- `_write_pending_print`: the temporary file replaces the marker, or the marker stays
  unfoldable pub write_pending_print : List Fields → String → PrintStage → Action (Unit {0})
  write_pending_print records audit_id state d =
      if env.write_fails
      then (err (history_error pending_not_saved), d)
      else (ok tt, record d { pending = holds (obj (pending_json state audit_id records)) })

  unfoldable pub persist_over :
      Option PendingPrintAudit → List Fields → String → PrintStage → Action (Unit {0})
  persist_over none records audit_id state d = write_pending_print records audit_id state d
  persist_over (some current) records audit_id state d =
      if not (is_same_job current records audit_id)
      then (err (history_error other_pending), d)
      else if is_submitted current.state || not (is_submitted state)
      then (ok tt, d)
      else write_pending_print records audit_id state d

  -- `_persist_pending_print`
  unfoldable pub persist_pending_print : List Fields → String → PrintStage → Action (Unit {0})
  persist_pending_print records audit_id state =
      reads (λ d. load_pending_print py os d.pending) >>> λ current.
      persist_over current records audit_id state

  unfoldable pub clear_loaded : Option PendingPrintAudit → String → Action (Unit {0})
  clear_loaded none audit_id d = (ok tt, d)
  clear_loaded (some current) audit_id d =
      if not (current.audit_id == audit_id)
      then (err (history_error pending_changed), d)
      else if env.unlink_fails
      then (err (history_error pending_not_cleared), d)
      else (ok tt, record d { pending = missing_file })

  -- `_clear_pending_print`
  unfoldable pub clear_pending_print : String → Action (Unit {0})
  clear_pending_print audit_id =
      reads (λ d. load_pending_print py os d.pending) >>> λ current. clear_loaded current audit_id

  -- `finalize_pending_print_audit`
  unfoldable pub finalize_pending_print_audit : String → Action (Unit {0})
  finalize_pending_print_audit audit_id = clear_pending_print (strip audit_id)

  unfoldable pub submit_loaded : Option PendingPrintAudit → String → Action (Unit {0})
  submit_loaded none audit_id d = (err (history_error no_prepared), d)
  submit_loaded (some p) audit_id d =
      if not (p.audit_id == audit_id)
      then (err (history_error no_prepared), d)
      else if is_submitted p.state
      then (ok tt, d)
      else write_pending_print p.records p.audit_id submitted d

  -- `mark_print_submitted`
  unfoldable pub mark_print_submitted : String → Action (Unit {0})
  mark_print_submitted audit_id =
      reads (λ d. load_pending_print py os d.pending) >>> λ p. submit_loaded p audit_id

  unfoldable pub discard_loaded : Option PendingPrintAudit → Action Bool
  discard_loaded none d = (ok false, d)
  discard_loaded (some p) d =
      if is_submitted p.state
      then (err (history_error already_submitted), d)
      else (clear_pending_print p.audit_id >>> λ _ d'. (ok true, d')) d

  -- `discard_prepared_print_audit`
  unfoldable pub discard_prepared_print_audit : Action Bool
  discard_prepared_print_audit = reads (λ d. load_pending_print py os d.pending) >>> discard_loaded
