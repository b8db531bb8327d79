-- ===== src/History/Records.antt =====
-- history.py: `_build_print_records`.
pub mod Sound
use voucher_management_deskt.Database.Action.{
  Result, ok, value_error, bad_copies, bad_audit_id, ids_mismatch, bad_timestamp_text,
}
use voucher_management_deskt.Prelude.{
  String, ℕ, strip, Option, ◌∷◌, Bool, List, map, leb, none, if◌then◌else◌, ◌&&◌, ◌==◌, not, [],
  any_by, is_empty, some, count_by, from_keys, eqb, length, ◌*◌,
}
use voucher_management_deskt.Json.{Fields, pos, field, text, num, end}
use voucher_management_deskt.History.Base.{Platform, Env, Action, ◌>>>◌, ◌>>=◌, guard}
use voucher_management_deskt.History.Identity.{usable_secret, digest, stable_digest}
use voucher_management_deskt.History.Pending.{is_audit_id}

-- the arguments of `_build_print_records`
pub record PrintArgs : Type 0 where
  pub codes : List String
  pub output_path : String
  pub document_copies : ℕ
  pub audit_id : String
  pub submitted_at : String
  pub site_id : String
  pub unifi_ids : Option (List String)

abbrev pub pair_eqb : String × String → String × String → Bool
pair_eqb a b = a.0 == b.0 && a.1 == b.1

-- `identities`; without ids every code has the id ""
unfoldable pub identities : List String → List String → List (String × String)
identities [] ids = []
identities (c ∷ cs) [] = (c, "") ∷ identities cs []
identities (c ∷ cs) (i ∷ ids) = (c, i) ∷ identities cs ids

-- `Counter(identities)`
unfoldable pub tally : List (String × String) → List ((String × String) × ℕ)
tally ids = map (λ i. (i, count_by (pair_eqb i) ids)) (from_keys pair_eqb ids)

-- the test of `unifi_ids`; the ids, stripped
unfoldable pub normalized_ids : Option (List String) → List String → Result (List String)
normalized_ids none codes = ok []
normalized_ids (some ids) codes =
    guard (eqb (length ids) (length codes) && not (any_by is_empty (map strip ids)))
      (value_error ids_mismatch)
    >>= λ _. ok (map strip ids)

module _ (os : Platform) where
  -- one record, with the digest of its code
  unfoldable pub record_fields : PrintArgs → String → (String × String) × ℕ → String → Fields
  record_fields args secret e voucher_id =
      let stable = stable_digest os args.site_id e.0.1 secret in
      field "event" (text "print") (
        field "voucher_id" (text voucher_id) (
          field "timestamp" (text (strip args.submitted_at)) (
            field "output_file" (text (os.file_name args.output_path)) (
              field "document_copies" (num (pos args.document_copies)) (
                field "physical_copies" (num (pos (e.1 * args.document_copies))) (
                  field "print_job_id" (text args.audit_id)
                    (if is_empty stable then end else field "voucher_ref" (text stable) end)))))))

  -- one record
  unfoldable pub print_record : PrintArgs → String → (String × String) × ℕ → Result Fields
  print_record args secret e =
      digest os e.0.0 secret >>= λ voucher_id. ok (record_fields args secret e voucher_id)

  unfoldable pub print_records :
      PrintArgs → String → List ((String × String) × ℕ) → Result (List Fields)
  print_records args secret [] = ok []
  print_records args secret (e ∷ es) =
      print_record args secret e >>= λ r. print_records args secret es >>= λ rs. ok (r ∷ rs)

  -- `_build_print_records` once the key is there
  unfoldable pub records_with : PrintArgs → String → Result (List Fields)
  records_with args secret = guard (leb 1 args.document_copies) (value_error bad_copies) >>= λ _.
      guard (is_audit_id args.audit_id) (value_error bad_audit_id) >>= λ _.
      guard (not (is_empty (strip args.submitted_at))) (value_error bad_timestamp_text) >>= λ _.
      normalized_ids args.unifi_ids args.codes >>= λ ids.
      print_records args secret (tally (identities args.codes ids))

  unfoldable pub build_print_records : Env → PrintArgs → Action (List Fields)
  build_print_records env args = usable_secret os env >>> λ secret d. (records_with args secret, d)
