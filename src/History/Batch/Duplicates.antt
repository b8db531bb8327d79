-- ===== src/History/Batch/Duplicates.antt =====
-- When `find_duplicates_for_batch` of history.py finds a document of the batch in the journal.
use voucher_management_deskt.Database.Action.{Result, ok, err, Result-cases, ok_injective}
use voucher_management_deskt.Json.{Fields, Python, find, text}
use voucher_management_deskt.Prelude.Dicts.{Dict, put, get, holds, holds-put}
use voucher_management_deskt.History.Base.{Platform, Env, Disk, items_of, fold_rows, for_items}
use voucher_management_deskt.History.Values.{text_or_empty}
use voucher_management_deskt.History.Identity.{usable_secret, digest, stable_digest}
use voucher_management_deskt.History.Queries.{
  DuplicateHit, BatchTargets, add_voucher, batch_targets, batch_step, matched_code, is_generated,
  find_duplicates_for_batch,
}
use voucher_management_deskt.Workflows.Printing.{VoucherBatch, VoucherRecord}
use voucher_management_deskt.Prelude.{
  String, Bool, List, ◌≡◌, true, false, [], ◌∷◌, not, is_empty, is_some, is_nil, strip, ◌&&◌, ◌||◌,
  ◌==◌, any_by, if◌then◌else◌, arith, refl, ap, sym, ◌∙◌, inl, inr, Bool-cases, Option-cases,
  eq_iff,
}

is_some-get : {V : Type 0} (k : String) (d : Dict V) → is_some (get k d) ≡ holds k d
is_some-get k [] = refl
is_some-get k (e ∷ d) = elim (Bool-cases (e.0 == k)) [
  | inl h ↦ rw h refl
  | inr h ↦ rw h (is_some-get k d)
]

is_nil-put : {V : Type 0} (k : String) (v : V) (d : Dict V) → is_nil (put k v d) ≡ false
is_nil-put k v [] = refl
is_nil-put k v (e ∷ d) = elim (Bool-cases (e.0 == k)) [ inl h ↦ rw h refl | inr h ↦ rw h refl ]

abbrev pub is_digest_of : Result String → String → Bool
is_digest_of (ok d) id = d == id
is_digest_of (err e) id = false

module _ (py : Python) (os : Platform) (secret : String) (batch : VoucherBatch) where
  -- the digest of the voucher's code
  abbrev pub has_digest : String → VoucherRecord → Bool
  has_digest id v =
      not (is_empty (strip v.code)) && is_digest_of (digest os (strip v.code) secret) id

  -- the digest of the voucher's site and remote id
  abbrev pub has_ref : String → VoucherRecord → Bool
  has_ref ref v =
      not (is_empty (strip v.code)) && (stable_digest os batch.site_id v.unifi_id secret == ref)

  -- Is this row a generated document of the voucher? A row with a `voucher_ref` names it by the digest of
  -- its remote id, any other row by that of its code.
  abbrev pub is_document_of : Fields → VoucherRecord → Bool
  is_document_of r v =
      if is_empty (text_or_empty py (find "voucher_ref" r))
      then has_digest (text_or_empty py (find "voucher_id" r)) v
      else has_ref (text_or_empty py (find "voucher_ref" r)) v

  abbrev pub is_duplicate : Fields → Bool
  is_duplicate r = is_generated r && any_by (is_document_of r) batch.vouchers

  empty_differs : (s k : String) → is_empty s ≡ true → is_empty k ≡ false → (s == k) ≡ false
  empty_differs s k h g = elim (Bool-cases (s == k)) [
    | inl e ↦ absurd (ground (arith, ap is_empty ((eq_iff s k).0 e)))
    | inr e ↦ e
  ]

  add_voucher-holds :
      (t : BatchTargets) (v : VoucherRecord) (k : String) {t' : BatchTargets}
      → add_voucher os secret batch t v ≡ ok t'
      → (holds k t'.code_targets ≡ (has_digest k v || holds k t.code_targets))
        × (is_empty k ≡ false → holds k t'.ref_targets ≡ (has_ref k v || holds k t.ref_targets))
  unfolding add_voucher
  add_voucher-holds t v k {t'} h =
      let code = strip v.code in
      let stable = stable_digest os batch.site_id v.unifi_id secret in
      elim (Bool-cases (is_empty code)) [
        | inl e ↦
            (let same : t ≡ t' = ok_injective (rw e at h) in
              (
                rw e (sym (ap (λ x. holds k x.code_targets) same)),
                λ g. rw e (sym (ap (λ x. holds k x.ref_targets) same)),
              ))
        | inr e ↦ elim (Result-cases (digest os code secret)) [
          | inr (x, f) ↦ absurd (ground (arith, rw (e, f) at h))
          | inl (d, f) ↦ elim (Bool-cases (is_empty stable)) [
            | inl s ↦
                (let same = ok_injective (rw (e, f, s) at h) in
                  (
                    rw (e, f)
                        (sym (ap (λ x. holds k x.code_targets) same)
                          ∙ holds-put k d code t.code_targets),
                    λ g.
                        rw (e, empty_differs stable k s g)
                          (sym (ap (λ x. holds k x.ref_targets) same)),
                  ))
            | inr s ↦
                (let same = ok_injective (rw (e, f, s) at h) in
                  (
                    rw (e, f)
                        (sym (ap (λ x. holds k x.code_targets) same)
                          ∙ holds-put k d code t.code_targets),
                    λ g. rw e (
                        sym (ap (λ x. holds k x.ref_targets) same)
                        ∙ holds-put k stable code t.ref_targets),
                  ))
          ]
        ]
      ]

  batch_targets-holds :
      (t : BatchTargets) (vs : List VoucherRecord) (k : String) {t' : BatchTargets}
      → batch_targets os secret batch t vs ≡ ok t'
      → (holds k t'.code_targets ≡ (any_by (has_digest k) vs || holds k t.code_targets))
        × (is_empty k ≡ false
            → holds k t'.ref_targets ≡ (any_by (has_ref k) vs || holds k t.ref_targets))
  unfolding batch_targets
  batch_targets-holds t [] k h = (
    sym (ap (λ x. holds k x.code_targets) (ok_injective h)),
    λ g. sym (ap (λ x. holds k x.ref_targets) (ok_injective h)),
  )
  batch_targets-holds t (v ∷ vs) k {t'} h = elim (Result-cases (add_voucher os secret batch t v)) [
    | inr (x, e) ↦ absurd (ground (arith, rw e at h))
    | inl (t1, e) ↦
        (let first = add_voucher-holds t v k e in
          let rest = batch_targets-holds t1 vs k {t' = t'} (rw e at h) in
          (ground (arith, first.0, rest.0), λ g. ground (arith, first.1 g, rest.1 g)))
  ]

  abbrev no_targets : BatchTargets
  no_targets = record { ref_targets = []; code_targets = [] }

  or_false : (b : Bool) → (b || false) ≡ b
  or_false true = refl
  or_false false = refl

  or_true : (b : Bool) → (b || true) ≡ true
  or_true true = refl
  or_true false = refl

  abbrev found_in : BatchTargets → Fields → Bool
  found_in t r = is_some (matched_code py t r).1

  documents_by_digest :
      (r : Fields) (vs : List VoucherRecord)
      → is_empty (text_or_empty py (find "voucher_ref" r)) ≡ true
      → any_by (has_digest (text_or_empty py (find "voucher_id" r))) vs
        ≡ any_by (is_document_of r) vs
  documents_by_digest r [] e = refl
  documents_by_digest r (v ∷ vs) e = rw e (
      ap (λ b. has_digest (text_or_empty py (find "voucher_id" r)) v || b)
        (documents_by_digest r vs e))

  documents_by_ref :
      (r : Fields) (vs : List VoucherRecord)
      → is_empty (text_or_empty py (find "voucher_ref" r)) ≡ false
      → any_by (has_ref (text_or_empty py (find "voucher_ref" r))) vs ≡ any_by (is_document_of r) vs
  documents_by_ref r [] e = refl
  documents_by_ref r (v ∷ vs) e =
      rw e (
        ap (λ b. has_ref (text_or_empty py (find "voucher_ref" r)) v || b)
          (documents_by_ref r vs e))

  found_in-any :
      (t : BatchTargets) (r : Fields)
      → batch_targets os secret batch no_targets batch.vouchers ≡ ok t
      → found_in t r ≡ any_by (is_document_of r) batch.vouchers
  unfolding matched_code
  found_in-any t r h =
      let ref = text_or_empty py (find "voucher_ref" r) in
      let id = text_or_empty py (find "voucher_id" r) in
      elim (Bool-cases (is_empty ref)) [
        | inl e ↦
            rw e (
              is_some-get id t.code_targets
              ∙ (batch_targets-holds no_targets batch.vouchers id h).0
              ∙ or_false (any_by (has_digest id) batch.vouchers))
            ∙ documents_by_digest r batch.vouchers e
        | inr e ↦
            rw e (
              is_some-get ref t.ref_targets
              ∙ (batch_targets-holds no_targets batch.vouchers ref h).1 e
              ∙ or_false (any_by (has_ref ref) batch.vouchers))
            ∙ documents_by_ref r batch.vouchers e
      ]

  -- one turn of the loop
  batch_step-nil :
      (t : BatchTargets) (hits : Dict DuplicateHit) (r : Fields)
      → (hits' : Dict DuplicateHit) × (batch_step py t hits r ≡ ok hits')
        × (not (is_nil hits') ≡ (not (is_nil hits) || (is_generated r && found_in t r)))
  unfolding batch_step
  batch_step-nil t hits r = elim (Bool-cases (is_generated r)) [
    | inr g ↦ (hits, rw g refl, rw g (sym (or_false (not (is_nil hits)))))
    | inl g ↦ elim (Option-cases (matched_code py t r).1) [
      | inl n ↦ (hits, rw (g, n) refl, rw (g, n) (sym (or_false (not (is_nil hits)))))
      | inr (code, n) ↦
          (let hit : DuplicateHit = record {
            digest = text (matched_code py t r).0;
            recipient = text (text_or_empty py (find "recipient" r));
            timestamp = text (text_or_empty py (find "timestamp" r));
            output_file = text (text_or_empty py (find "output_file" r));
          } in
            (
              put code hit hits,
              rw (g, n) refl,
              rw (g, n) (ap not (is_nil-put code hit hits) ∙ sym (or_true (not (is_nil hits)))),
            ))
    ]
  ]

  fold_rows-nil :
      (t : BatchTargets) (hits : Dict DuplicateHit) (rs : List Fields) {hits' : Dict DuplicateHit}
      → batch_targets os secret batch no_targets batch.vouchers ≡ ok t
      → fold_rows (batch_step py t) hits rs ≡ ok hits'
      → not (is_nil hits') ≡ (not (is_nil hits) || any_by is_duplicate rs)
  unfolding fold_rows
  fold_rows-nil t hits [] h e =
      sym (ap (λ x. not (is_nil x)) (ok_injective e)) ∙ sym (or_false (not (is_nil hits)))
  fold_rows-nil t hits (r ∷ rs) {hits'} h e =
      let (next, s, q) = batch_step-nil t hits r in
      let rest = fold_rows-nil t next rs {hits' = hits'} h (rw s at e) in
      ground (arith, q, rest, found_in-any t r h)

-- The call finds a document of the batch just when a row of the journal is one of a voucher of it.
pub find_duplicates-finds :
    (py : Python) (os : Platform) (env : Env) (batch : VoucherBatch) (d : Disk)
    {hits : Dict DuplicateHit} {secret : String}
    → (find_duplicates_for_batch py os env batch d).0 ≡ ok hits
    → (usable_secret os env d).0 ≡ ok secret
    → not (is_nil hits)
      ≡ any_by (is_duplicate py os secret batch) (items_of (usable_secret os env d).1.journal).0
unfolding find_duplicates_for_batch for_items
find_duplicates-finds py os env batch d {hits} {secret} h s =
    let rows = (items_of (usable_secret os env d).1.journal).0 in
    elim (Result-cases
      (batch_targets os secret batch (no_targets py os secret batch) batch.vouchers)) [
        | inr (x, e) ↦ absurd (ground (arith, rw (s, e) at h))
        | inl (t, e) ↦ elim (Result-cases (fold_rows (batch_step py t) [] rows)) [
          | inr (x, f) ↦ absurd (ground (arith, rw (s, e, f) at h))
          | inl (found, f) ↦ elim (Bool-cases (items_of (usable_secret os env d).1.journal).1) [
            | inl b ↦ absurd (ground (arith, rw (s, e, f, b) at h))
            | inr b ↦
                ap (λ x. not (is_nil x)) (sym (ok_injective (rw (s, e, f, b) at h)))
                ∙ fold_rows-nil py os secret batch t [] rows e f
          ]
        ]
      ]
