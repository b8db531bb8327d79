-- ===== src/History/Journal.antt =====
-- history.py: what `_verify_event`, `_verify_print_job` and `_record_print_records` read in the journal.
use voucher_management_deskt.Database.Action.{
  Result, ok, type_error, history_error, journal_unverified, err, job_incoherent,
}
use voucher_management_deskt.Prelude.{
  String, strip, Option, ◌∷◌, Bool, List, none, if◌then◌else◌, ◌&&◌, ◌==◌, not, all_by, [], false,
  true, any_by, is_empty, some, coalesce, elem, ◌++◌,
}
use voucher_management_deskt.Json.{Json, Fields, Python, find, text}
use voucher_management_deskt.History.Base.{◌>>=◌, guard, for_items, Journal}
use voucher_management_deskt.History.Values.{get_eqb, is_text, event_of, text_or_empty, is_hashable}

-- a tuple of values in a set
abbrev pub Key : Type 0
Key = List (Option Json)

abbrev pub key_eqb : Key → Key → Bool
key_eqb [] [] = true
key_eqb (v ∷ vs) (w ∷ ws) = get_eqb v w && key_eqb vs ws
key_eqb _ _ = false

-- the keys as a set; TypeError where one cannot be hashed
unfoldable pub key_set : (Fields → Key) → List Fields → Result (List Key)
key_set key [] = ok []
key_set key (r ∷ rs) =
    guard (all_by is_hashable (key r)) type_error >>= λ _. key_set key rs >>= λ ks. ok (key r ∷ ks)

abbrev pub keys_within : List Key → List Key → Bool
keys_within ks ls = all_by (λ k. elem key_eqb k ls) ks

-- the rows of a print job
unfoldable pub is_job_row : String → Fields → Bool
is_job_row audit_id item =
    is_text "print" (event_of item) && is_text audit_id (find "print_job_id" item)

unfoldable pub job_key : Fields → Key
job_key r =
    find "voucher_id" r
    ∷ find "output_file" r
    ∷ find "document_copies" r
    ∷ find "physical_copies" r
    ∷ []

module _ (py : Python) where
  -- `identity` of `_verify_event`
  unfoldable pub event_key : Fields → Key
  event_key r =
      let event_id = strip (text_or_empty py (find "event_id" r)) in
      if is_empty event_id
      then some (text "legacy")
        ∷ find "voucher_id" r
        ∷ find "timestamp" r
        ∷ find "output_file" r
        ∷ []
      else some (text "event_id") ∷ some (text event_id) ∷ []

  -- `found.add(key)` for the rows that `keep` names
  unfoldable pub found_key :
      (Fields → Bool) → (Fields → Key) → List Key → Fields → Result (List Key)
  found_key keep key found item =
      if not (keep item)
      then ok found
      else guard (all_by is_hashable (key item)) type_error >>= λ _. ok (key item ∷ found)

  -- `_verify_event`
  unfoldable pub verify_event : List Fields → String → Journal → Result (Unit {0})
  verify_event [] event j = ok tt
  verify_event (r ∷ rs) event j = key_set event_key (r ∷ rs) >>= λ wanted.
      for_items (found_key (λ item. is_text event (event_of item)) event_key) [] j >>= λ found.
      guard (keys_within wanted found) (history_error journal_unverified)

  -- `_verify_print_job`
  unfoldable pub verify_print_job : List Fields → String → Journal → Result (Unit {0})
  verify_print_job records audit_id j =
      if is_empty audit_id
      then verify_event records "print" j
      else key_set job_key records >>= λ wanted.
          for_items (found_key (is_job_row audit_id) job_key) [] j >>= λ found.
          guard (keys_within wanted found && keys_within found wanted)
            (history_error journal_unverified)

  -- `existing_by_voucher`, a row at a time
  unfoldable pub collect :
      String → List (String × Fields) → Fields → Result (List (String × Fields))
  collect audit_id seen item =
      let voucher_id = text_or_empty py (find "voucher_id" item) in
      if not (is_job_row audit_id item)
      then ok seen
      else if any_by (λ (e : String × Fields). e.0 == voucher_id) seen
      then err (history_error job_incoherent)
      else ok (seen ++ (voucher_id, item) ∷ [])

-- `expected_by_voucher.get(voucher_id)`: the last record of the voucher
unfoldable pub expected_record : String → List Fields → Option Fields
expected_record v [] = none
expected_record v (r ∷ rs) =
    coalesce (expected_record v rs) (if is_text v (find "voucher_id" r) then some r else none)

-- the `comparable` fields agree
unfoldable pub agrees : Fields → Fields → Bool
agrees item expected =
    get_eqb (find "timestamp" item) (find "timestamp" expected)
    && get_eqb (find "output_file" item) (find "output_file" expected)
    && get_eqb (find "document_copies" item) (find "document_copies" expected)
    && get_eqb (find "physical_copies" item) (find "physical_copies" expected)

unfoldable pub is_expected : List Fields → String × Fields → Bool
is_expected records e = elim (expected_record e.0 records) [ none ↦ false | some r ↦ agrees e.1 r ]

-- `record["voucher_id"] not in existing_by_voucher`
unfoldable pub is_missing : List (String × Fields) → Fields → Bool
is_missing existing r =
    not (any_by (λ (e : String × Fields). is_text e.0 (find "voucher_id" r)) existing)
