-- ===== src/History/Print/Plain.antt =====
-- The records that `_build_print_records` of history.py makes hold texts and numbers.
use voucher_management_deskt.History.Identity.{digest}
use voucher_management_deskt.Database.Action.{ok, Result-cases}
use voucher_management_deskt.Prelude.{
  String, ℕ, List, ◌≡◌, true, all_by, arith, eq_refl, ◌∷◌, strip, eqb_refl, inl, ◌*◌, inr, [],
}
use voucher_management_deskt.Json.{Fields, Python, find}
use voucher_management_deskt.History.Base.{Platform}
use voucher_management_deskt.History.Values.{
  is_text, event_of, text_or_empty, get_eqb, json_eqb, is_hashable,
}
use voucher_management_deskt.History.Journal.{is_job_row, agrees, job_key}
use voucher_management_deskt.History.Records.{PrintArgs, record_fields, print_record, print_records}
use voucher_management_deskt.History.Print.Behind.{is_plain}

module _ (py : Python) (os : Platform) (args : PrintArgs) (secret : String) where
  record_fields-is_plain :
      (e : (String × String) × ℕ) (voucher_id : String)
      → is_plain py args.audit_id (record_fields os args secret e voucher_id) ≡ true
  unfolding is_job_row is_text event_of find text_or_empty agrees get_eqb json_eqb is_hashable
      job_key record_fields
  record_fields-is_plain e voucher_id = ground (
    arith,
    eq_refl voucher_id,
    eq_refl args.audit_id,
    eq_refl (strip args.submitted_at),
    eq_refl (os.file_name args.output_path),
    eqb_refl args.document_copies,
    eqb_refl (e.1 * args.document_copies),
  )

  pub print_records-is_plain :
      (es : List ((String × String) × ℕ)) {rs : List Fields}
      → print_records os args secret es ≡ ok rs
      → all_by (is_plain py args.audit_id) rs ≡ true
  unfolding print_records print_record
  print_records-is_plain [] h = ground arith
  print_records-is_plain (e ∷ es) {rs} h = elim (Result-cases (digest os e.0.0 secret)) [
    | inl (d, f) ↦ elim (Result-cases (print_records os args secret es)) [
      | inl (ss, g) ↦
          ground (arith, record_fields-is_plain e d, print_records-is_plain es {rs = ss} g)
      | inr (x, g) ↦ absurd (ground arith)
    ]
    | inr (x, f) ↦ absurd (ground arith)
  ]
