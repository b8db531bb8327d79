-- ===== src/History/Batch/Recorded.antt =====
-- What `record_batch` of history.py leaves in the journal.
use voucher_management_deskt.Database.Action.{ok, Result-cases, ok_injective}
use voucher_management_deskt.History.Values.{is_text, event_of, get_eqb, json_eqb}
use voucher_management_deskt.Prelude.{
  String, Option, none, Bool-cases, is_empty, if◌then◌else◌, Bool, List, length, ◌≡◌, ◌&&◌, ℕ,
  all_by, true, is_nil, some, arith, ◌⊎◌, eq_refl, ◌∷◌, map, inl, Option-cases, suc, inr, [], refl,
  sym, ap, ◌∙◌, subst,
}
use voucher_management_deskt.Json.{Json, text, num, pos, Fields, Python, find, bool}
use voucher_management_deskt.History.Base.{
  Action, Platform, Env, Disk, row, append, write_lines, ◌>>>◌, reads, flushed, bind-ok,
}
use voucher_management_deskt.History.Identity.{usable_secret, digest, stable_digest}
use voucher_management_deskt.History.Identity.Kept.{usable_secret-IsFramed, usable_secret-ok}
use voucher_management_deskt.History.Journal.{verify_event}
use voucher_management_deskt.History.Batch.{generate_records, generate_record, record_batch}
use voucher_management_deskt.History.Queries.{is_generated}
use voucher_management_deskt.Workflows.Printing.{VoucherBatch, VoucherRecord}

module _ (py : Python) (os : Platform) (env : Env) where
  -- a row of a generated document with that name
  abbrev pub is_document_row : String → Bool → Fields → Bool
  is_document_row name reprint r =
      is_generated r
      && is_text name (find "output_file" r)
      && get_eqb (find "reprint" r) (some (bool reprint))

  generate_record-is_document_row :
      (batch : VoucherBatch) (name : String) (reprint : Bool) (secret event_id : String)
      (v : VoucherRecord) (id : String)
      → is_document_row name reprint
          (generate_record py os env batch name reprint secret event_id v id)
        ≡ true
  unfolding generate_record is_generated is_text event_of find get_eqb json_eqb
  generate_record-is_document_row batch name reprint secret event_id v id =
      ground (arith, eq_refl name)

  generate_records-ok :
      (batch : VoucherBatch) (name : String) (reprint : Bool) (secret : String) (n : ℕ)
      (vs : List VoucherRecord) {rs : List Fields}
      → generate_records py os env batch name reprint secret n vs ≡ ok rs
      → (length rs ≡ length vs) × (all_by (is_document_row name reprint) rs ≡ true)
  unfolding generate_records
  generate_records-ok batch name reprint secret n [] h = ground arith
  generate_records-ok batch name reprint secret n (v ∷ vs) {rs} h =
      elim (Result-cases (digest os v.code secret)) [
        | inl (d, f) ↦
            elim (Result-cases (generate_records py os env batch name reprint secret (suc n) vs)) [
              | inl (ss, g) ↦ ground (
                arith,
                generate_record-is_document_row batch name reprint secret (env.token n) v d,
                generate_records-ok batch name reprint secret (suc n) vs {rs = ss} g,
              )
              | inr (x, g) ↦ absurd (ground arith)
            ]
        | inr (x, f) ↦ absurd (ground arith)
      ]

  -- the recipient of the voucher, or that of the batch
  abbrev recipient_of : VoucherBatch → VoucherRecord → String
  recipient_of batch v = if is_empty v.recipient then batch.recipient else v.recipient

  -- the digest of the remote id, where there is one
  abbrev ref_of : String → Option Json
  ref_of stable = if is_empty stable then none else some (text stable)

  -- The row says of this voucher that its document was generated: it holds the digest of its code and,
  -- where the batch has a site and the voucher a remote id, the digest of these, under the key.
  abbrev pub IsRowOf : VoucherBatch → String → Bool → String → VoucherRecord → Fields → Type 0
  IsRowOf batch name reprint secret v r =
      (id : String) × (digest os v.code secret ≡ ok id)
      × (find "voucher_id" r ≡ some (text id))
      × (find "voucher_ref" r ≡ ref_of (stable_digest os batch.site_id v.unifi_id secret))
      × (find "recipient" r ≡ some (text (recipient_of batch v)))
      × (find "duration_minutes" r ≡ some (num (pos v.duration_minutes)))
      × (is_document_row name reprint r ≡ true)

  -- one row for each voucher, in their order
  abbrev pub AreRowsOf :
      VoucherBatch → String → Bool → String → List VoucherRecord → List Fields → Type 0
  AreRowsOf batch name reprint secret [] rs = rs ≡ []
  AreRowsOf batch name reprint secret (v ∷ vs) rs =
      (r : Fields) × (rest : List Fields) × (rs ≡ r ∷ rest)
      × IsRowOf batch name reprint secret v r
      × AreRowsOf batch name reprint secret vs rest

  generate_record-IsRowOf :
      (batch : VoucherBatch) (name : String) (reprint : Bool) (secret event_id : String)
      (v : VoucherRecord) {id : String}
      → digest os v.code secret ≡ ok id
      → IsRowOf batch name reprint secret v
          (generate_record py os env batch name reprint secret event_id v id)
  unfolding generate_record find
  generate_record-IsRowOf batch name reprint secret event_id v {id} h =
      let document = generate_record-is_document_row batch name reprint secret event_id v id in
      elim (Bool-cases (is_empty (stable_digest os batch.site_id v.unifi_id secret))) [
        | inl e ↦ (id, h, rw e refl, rw e refl, rw e refl, rw e refl, document)
        | inr e ↦ (id, h, rw e refl, rw e refl, rw e refl, rw e refl, document)
      ]

  generate_records-AreRowsOf :
      (batch : VoucherBatch) (name : String) (reprint : Bool) (secret : String) (n : ℕ)
      (vs : List VoucherRecord) {rs : List Fields}
      → generate_records py os env batch name reprint secret n vs ≡ ok rs
      → AreRowsOf batch name reprint secret vs rs
  unfolding generate_records
  generate_records-AreRowsOf batch name reprint secret n [] h = sym (ok_injective h)
  generate_records-AreRowsOf batch name reprint secret n (v ∷ vs) {rs} h =
      elim (Result-cases (digest os v.code secret)) [
        | inr (x, f) ↦ absurd (ground (arith, rw f at h))
        | inl (d, f) ↦
            elim (Result-cases (generate_records py os env batch name reprint secret (suc n) vs)) [
              | inr (x, g) ↦ absurd (ground (arith, rw (f, g) at h))
              | inl (rest, g) ↦ (
                generate_record py os env batch name reprint secret (env.token n) v d,
                rest,
                sym (ok_injective (rw (f, g) at h)),
                generate_record-IsRowOf batch name reprint secret (env.token n) v f,
                generate_records-AreRowsOf batch name reprint secret (suc n) vs g,
              )
            ]
      ]

  append-ok :
      (rs : List Fields) (d : Disk)
      → (append env rs d).0 ≡ ok tt
      → ((append env rs d).1 ≡ record d { journal = (append env rs d).1.journal })
        × (is_nil rs ≡ true ⊎ ((append env rs d).1.journal ≡ write_lines (map row rs) d.journal))
  unfolding append flushed
  append-ok [] d h = (refl, inl refl)
  append-ok (r ∷ rs) d h = elim (Option-cases env.append_stops) [
    | inl e ↦ ground arith
    | inr (x, e) ↦ ground arith
  ]

  -- the last two statements
  abbrev write_rows : List Fields → Action (Unit {0})
  write_rows rs = append env rs >>> λ _. reads λ d. verify_event py rs "generate" d.journal

  write_rows-ok :
      (rs : List Fields) (d : Disk)
      → (write_rows rs d).0 ≡ ok tt
      → ((is_nil rs ≡ true) ⊎ ((write_rows rs d).1.journal ≡ write_lines (map row rs) d.journal))
        × (verify_event py rs "generate" (write_rows rs d).1.journal ≡ ok tt)
        × ((write_rows rs d).1.pending ≡ d.pending)
        × ((write_rows rs d).1.secret ≡ d.secret)
  write_rows-ok rs d h = elim (Result-cases (append env rs d).0) [
    | inl (a, e) ↦ ground (arith, append-ok rs d)
    | inr (x, e) ↦ absurd (ground arith)
  ]

  -- the rows of a batch are in the journal behind those of before, and were read back; their digests are
  -- under the key on disk
  abbrev pub IsRecorded : VoucherBatch → String → Bool → Disk → Disk → Type 0
  IsRecorded batch path reprint d d' =
      (rs : List Fields) × (length rs ≡ length batch.vouchers)
      × AreRowsOf batch (os.file_name path) reprint d'.secret batch.vouchers rs
      × ((is_nil rs ≡ true) ⊎ (d'.journal ≡ write_lines (map row rs) d.journal))
      × (verify_event py rs "generate" d'.journal ≡ ok tt)
      × (d'.pending ≡ d.pending)

  -- A `record_batch` that returns has added one row for each voucher of the batch at the end of the
  -- journal, each with the digests of the voucher under the key of the call, with the name of the document
  -- and whether it is a reprint; it has read them back, and has left the descriptor of a pending print as
  -- it was.
  pub record_batch-IsRecorded :
      (batch : VoucherBatch) (path : String) (reprint : Bool) (d : Disk)
      → (record_batch py os env batch path reprint d).0 ≡ ok tt
      → (secret : String) × ((usable_secret os env d).0 ≡ ok secret)
        × ((record_batch py os env batch path reprint d).1.secret ≡ secret)
        × IsRecorded batch path reprint d (record_batch py os env batch path reprint d).1
  unfolding record_batch
  record_batch-IsRecorded batch path reprint d h =
      let name = os.file_name path in
      let d1 = (usable_secret os env d).1 in
      let made : String → Action (List Fields) = λ secret.
        reads (λ d. generate_records py os env batch name reprint secret 0 batch.vouchers) in
      let (secret, s, e) =
        bind-ok (usable_secret os env) (λ secret. made secret >>> write_rows) d h in
      let (rs, g, i) = bind-ok (made secret) write_rows d1 (sym (ap (λ r. r.0) e) ∙ h) in
      let (size, named) = generate_records-ok batch name reprint secret 0 batch.vouchers g in
      let (there, read, left, key) = write_rows-ok rs d1 (sym (ap (λ r. r.0) (e ∙ i)) ∙ h) in
      let (j, p) = usable_secret-IsFramed os env d in
      let same : (write_rows rs d1).1.secret ≡ secret = key ∙ (usable_secret-ok os env d s).0 in
      subst
        (λ r.
          (k : String) × ((usable_secret os env d).0 ≡ ok k)
          × (r.1.secret ≡ k)
          × IsRecorded batch path reprint d r.1)
        (sym (e ∙ i))
        (
          secret,
          s,
          same,
          (
            rs,
            size,
            subst (λ k. AreRowsOf batch name reprint k batch.vouchers rs) (sym same)
                (generate_records-AreRowsOf batch name reprint secret 0 batch.vouchers g),
            subst
                (λ k.
                  (is_nil rs ≡ true) ⊎ ((write_rows rs d1).1.journal ≡ write_lines (map row rs) k))
                j there,
            read,
            left ∙ p,
          ),
        )
