-- ===== src/History/Pending/RoundTrip.antt =====
-- The descriptor of a pending print, written and read (history.py).
use voucher_management_deskt.Database.Action.{ok, Result-cases}
use voucher_management_deskt.Recovery.Marker.{Marker, holds, missing_file}
use voucher_management_deskt.Prelude.{
  String, ◌≡◌, Bool, List, is_space, true, ◌&&◌, all_by, any_by, some, not, is_nil, ◌∷◌, strip,
  arith, strip-solid, codes, false, [], refl, inl, inr, Option,
}
use voucher_management_deskt.Json.{Json, Items, Fields, Python, find, items, obj, cons, nil, arr}
use voucher_management_deskt.History.Base.{Platform}
use voucher_management_deskt.History.Pending.{
  PendingPrintAudit, load_pending_print, pending_of, audit_of, records_of, format_of, stage_of,
  is_print_record, is_audit_id, all_hex_or_dash, pending_json, PrintStage, audit_from, submitted,
  stage_text, prepared,
}
use voucher_management_deskt.History.Values.{rows_json, text_or_empty, is_hashable, json_eqb}
use voucher_management_deskt.Recovery.Intent.{all_hex, lower}

audit_id-solid : (s : String) → all_hex_or_dash (lower s) ≡ true → any_by is_space (codes s) ≡ false
unfolding all_hex_or_dash all_hex lower is_space
audit_id-solid String.[] h = refl
audit_id-solid (String.◌∷◌ c s) h = ground (arith, audit_id-solid s)

pub strip-audit_id : (s : String) → is_audit_id s ≡ true → strip s ≡ s
unfolding is_audit_id
strip-audit_id s h = strip-solid s (audit_id-solid s (ground arith))

module _ (py : Python) (os : Platform) where
  -- what `_load_pending_print` accepts
  abbrev pub is_sound : PendingPrintAudit → Bool
  is_sound p =
      is_audit_id p.audit_id
      && not (is_nil p.records)
      && all_by (is_print_record py os p.audit_id) p.records

  records_of-rows_json :
      (audit_id : String) (rs : List Fields)
      → all_by (is_print_record py os audit_id) rs ≡ true
      → records_of py os audit_id (rows_json rs) ≡ ok rs
  unfolding records_of rows_json
  records_of-rows_json audit_id [] h = refl
  records_of-rows_json audit_id (r ∷ rs) h = ground (arith, records_of-rows_json audit_id rs)

  records_of-ok :
      (audit_id : String) (vs : Items) {rs : List Fields}
      → records_of py os audit_id vs ≡ ok rs
      → (all_by (is_print_record py os audit_id) rs ≡ true) × (is_nil rs ≡ is_nil (items vs))
  unfolding records_of
  records_of-ok audit_id nil h = ground arith
  records_of-ok audit_id (cons (obj r) vs) h = elim (Result-cases (records_of py os audit_id vs)) [
    | inl (rest, e) ↦ ground (arith, records_of-ok audit_id vs e)
    | inr (x, e) ↦ ground arith
  ]
  records_of-ok audit_id (cons _ vs) h = ground arith

  is_nil-rows_json : (rs : List Fields) → is_nil (items (rows_json rs)) ≡ is_nil rs
  unfolding rows_json
  is_nil-rows_json [] = refl
  is_nil-rows_json (r ∷ rs) = refl

  audit_of-rows_json :
      (state : PrintStage) (p : PendingPrintAudit)
      → is_sound p ≡ true
      → audit_of py os state (rows_json p.records) (pending_json state p.audit_id p.records)
        ≡ ok (record p { state = state })
  unfolding audit_of pending_json rows_json find text_or_empty
  audit_of-rows_json state p h = ground (
    arith,
    strip-audit_id p.audit_id,
    records_of-rows_json p.audit_id p.records,
    is_nil-rows_json p.records,
  )

  stage_kept : (state : PrintStage) → stage_of py os (strip (stage_text state)) ≡ ok state
  unfolding stage_of strip is_space
  stage_kept prepared = refl
  stage_kept submitted = refl

  -- A sound descriptor is read as it was written.
  pub load-pending_json :
      (p : PendingPrintAudit)
      → is_sound p ≡ true
      → load_pending_print py os (holds (obj (pending_json p.state p.audit_id p.records)))
        ≡ ok (some p)
  unfolding load_pending_print pending_of pending_json format_of stage_of text_or_empty find
      is_hashable json_eqb audit_from
  load-pending_json p h = ground (arith, stage_kept p.state, audit_of-rows_json p.state p h)

  audit_of-is_sound :
      (state : PrintStage) (vs : Items) (payload : Fields) {p : PendingPrintAudit}
      → audit_of py os state vs payload ≡ ok p
      → is_sound p ≡ true
  unfolding audit_of
  audit_of-is_sound state vs payload h =
      let audit_id = strip (text_or_empty py (find "audit_id" payload)) in
      elim (Result-cases (records_of py os audit_id vs)) [
        | inl (rs, e) ↦ ground (arith, records_of-ok audit_id vs e)
        | inr (x, e) ↦ ground arith
      ]

  audit_from-is_sound :
      (first : Bool) (records : Option Json) (payload : Fields) {p : PendingPrintAudit}
      → audit_from py os first records payload ≡ ok p
      → is_sound p ≡ true
  unfolding audit_from
  audit_from-is_sound true (some (arr vs)) payload h = audit_of-is_sound submitted vs payload h
  audit_from-is_sound false (some (arr vs)) payload {p} h =
      elim (Result-cases (stage_of py os (strip (text_or_empty py (find "state" payload))))) [
        | inl (state, e) ↦ ground (arith, audit_of-is_sound state vs payload {p = p})
        | inr (x, e) ↦ ground arith
      ]
  audit_from-is_sound _ _ payload h = ground arith

  -- What is read is sound.
  pub load_pending_print-is_sound :
      (m : Marker) {p : PendingPrintAudit}
      → load_pending_print py os m ≡ ok (some p)
      → is_sound p ≡ true
  unfolding load_pending_print pending_of
  load_pending_print-is_sound (holds (obj payload)) h =
      elim (Result-cases (format_of py os (find "format" payload))) [
        | inl (first, f) ↦
            elim (Result-cases (audit_from py os first (find "records" payload) payload)) [
              | inl (q, e) ↦
                  ground (arith, audit_from-is_sound first (find "records" payload) payload e)
              | inr (x, e) ↦ ground arith
            ]
        | inr (x, f) ↦ ground arith
      ]
  load_pending_print-is_sound missing_file h = ground arith
  load_pending_print-is_sound _ h = ground arith
