-- ===== src/History/Records/Sound.antt =====
-- The records that `_build_print_records` of history.py returns can be read back from the marker.
use voucher_management_deskt.History.Values.{is_text, text_or_empty}
use voucher_management_deskt.Database.Action.{ok, Result-cases}
use voucher_management_deskt.History.Identity.{digest}
use voucher_management_deskt.Prelude.{
  String, List, ◌≡◌, ℕ, from_keys, true, is_nil, all_by, leb, elem, count_by, ◌*◌, ◌↔◌, sym, map,
  is_empty, ◌∷◌, elem-from_keys, [], false, and_intro, arith, eq_iff, ◌∙◌, strip, or_true_right,
  refl, inl, eq_refl, inr, strip-strip, suc, le→leb, zero,
}
use voucher_management_deskt.Json.{Fields, Python, find}
use voucher_management_deskt.History.Base.{Platform}
use voucher_management_deskt.History.Pending.{is_print_record, PrintStage}
use voucher_management_deskt.History.Pending.RoundTrip.{is_sound}
use voucher_management_deskt.History.Records.{
  PrintArgs, tally, identities, pair_eqb, print_record, print_records, records_with, normalized_ids,
  record_fields,
}
use voucher_management_deskt.Recovery.Intent.{is_digest, lower}

pub pair_eqb_iff : (a b : String × String) → (pair_eqb a b ≡ true) ↔ (a ≡ b)
pair_eqb_iff (a, i) (b, j) = ground (arith, eq_iff a b, eq_iff i j)

counted :
    (k : String × String) (ids : List (String × String))
    → elem pair_eqb k ids ≡ true
    → leb 1 (count_by (pair_eqb k) ids) ≡ true
counted k [] h = ground arith
counted k (i ∷ ids) h = ground (arith, counted k ids)

labels_positive :
    (ks ids : List (String × String))
    → ((k : String × String) → elem pair_eqb k ks ≡ true → elem pair_eqb k ids ≡ true)
    → all_by
        (λ (e : (String × String) × ℕ). leb 1 e.1)
        (map (λ i. (i, count_by (pair_eqb i) ids)) ks)
      ≡ true
labels_positive [] ids h = refl
labels_positive (k ∷ ks) ids h =
    and_intro (counted k ids (h k (ground (arith, pair_eqb_iff k k))))
      (labels_positive ks ids (λ j e. h j (or_true_right _ _ e)))

pub tally_positive :
    (ids : List (String × String))
    → all_by (λ (e : (String × String) × ℕ). leb 1 e.1) (tally ids) ≡ true
unfolding tally
tally_positive ids =
    labels_positive (from_keys pair_eqb ids) ids
      (λ k h. sym (elem-from_keys pair_eqb pair_eqb_iff k ids) ∙ h)

product_positive : (a b : ℕ) → leb 1 a ≡ true → leb 1 b ≡ true → leb 1 (a * b) ≡ true
product_positive zero b h k = ground arith
product_positive (suc a) zero h k = ground arith
product_positive (suc a) (suc b) h k = le→leb 1 (suc a * suc b) (grind arith)

is_nil-identities : (cs ids : List String) → is_nil (identities cs ids) ≡ is_nil cs
unfolding identities
is_nil-identities [] ids = refl
is_nil-identities (c ∷ cs) [] = refl
is_nil-identities (c ∷ cs) (i ∷ ids) = refl

is_nil-tally : (ids : List (String × String)) → is_nil (tally ids) ≡ is_nil ids
unfolding tally from_keys
is_nil-tally [] = refl
is_nil-tally (i ∷ ids) = refl

module _ (py : Python) (os : Platform)
    (hex : (k m : String) → is_digest (lower (os.hmac k m)) ≡ true)
    (bare : (path : String) → os.file_name (os.file_name path) ≡ os.file_name path)
    (args : PrintArgs) (named : is_empty (os.file_name args.output_path) ≡ false)
    (secret : String) where
  record_fields-is_print_record :
      (e : (String × String) × ℕ) (voucher_id : String)
      → leb 1 e.1 ≡ true
      → leb 1 args.document_copies ≡ true
      → is_empty (strip args.submitted_at) ≡ false
      → is_digest (lower voucher_id) ≡ true
      → is_print_record py os args.audit_id (record_fields os args secret e voucher_id) ≡ true
  unfolding record_fields is_print_record is_text find text_or_empty
  record_fields-is_print_record e voucher_id l c t d = ground (
    arith,
    bare args.output_path,
    eq_refl args.audit_id,
    eq_refl (os.file_name args.output_path),
    strip-strip args.submitted_at,
    product_positive e.1 args.document_copies l c,
  )

  print_record-is_print_record :
      (e : (String × String) × ℕ) {r : Fields}
      → leb 1 e.1 ≡ true
      → leb 1 args.document_copies ≡ true
      → is_empty (strip args.submitted_at) ≡ false
      → print_record os args secret e ≡ ok r
      → is_print_record py os args.audit_id r ≡ true
  unfolding print_record digest
  print_record-is_print_record e l c t h =
      ground
        (arith, record_fields-is_print_record e (os.hmac secret e.0.0) l c t (hex secret e.0.0))

  print_records-is_print_record :
      (es : List ((String × String) × ℕ)) {rs : List Fields}
      → all_by (λ (e : (String × String) × ℕ). leb 1 e.1) es ≡ true
      → leb 1 args.document_copies ≡ true
      → is_empty (strip args.submitted_at) ≡ false
      → print_records os args secret es ≡ ok rs
      → (all_by (is_print_record py os args.audit_id) rs ≡ true) × (is_nil rs ≡ is_nil es)
  unfolding print_records
  print_records-is_print_record [] l c t h = ground arith
  print_records-is_print_record (e ∷ es) l c t h =
      elim (Result-cases (print_record os args secret e)) [
        | inl (r, f) ↦ elim (Result-cases (print_records os args secret es)) [
          | inl (rs, g) ↦ ground (
            arith,
            print_record-is_print_record e (ground arith) c t f,
            print_records-is_print_record es (ground arith) c t g,
          )
          | inr (x, g) ↦ ground arith
        ]
        | inr (x, f) ↦ ground arith
      ]

  -- The records of at least one code, for a path with a file name, can be read back from the marker.
  pub records_with-is_sound :
      (state : PrintStage) {rs : List Fields}
      → is_nil args.codes ≡ false
      → records_with os args secret ≡ ok rs
      → is_sound py os (record { state = state; audit_id = args.audit_id; records = rs }) ≡ true
  unfolding records_with
  records_with-is_sound state {rs} n h =
      elim (Result-cases (normalized_ids args.unifi_ids args.codes)) [
        | inl (ids, e) ↦ ground (
          arith,
          print_records-is_print_record (tally (identities args.codes ids)) {rs = rs}
              (tally_positive (identities args.codes ids)),
          is_nil-tally (identities args.codes ids),
          is_nil-identities args.codes ids,
        )
        | inr (x, e) ↦ ground arith
      ]
