-- ===== src/History/Resolve/Exact.antt =====
-- `resolve_pending_print` of history.py accepts a code for a record by its digest alone.
use voucher_management_deskt.History.Pending.{PendingPrintAudit}
use voucher_management_deskt.Database.Action.{ok, Result-cases, ok_injective}
use voucher_management_deskt.Prelude.{
  ◌/◌, ◌%◌, String, false, ◌≡◌, ◌∷◌, true, some, Bool-cases, arith, map, inl, [], strip, inr, subst,
  List, is_empty, refl, ◌⊎◌, sym, ◌++◌, Option-cases, ◌∙◌, eqb_iff, ap, eqb, length,
}
use voucher_management_deskt.Prelude.Dicts.{get}
use voucher_management_deskt.Json.{Fields, Python, find}
use voucher_management_deskt.History.Base.{◌>>=◌, Platform, Env}
use voucher_management_deskt.History.Identity.{digest, stable_digest}
use voucher_management_deskt.History.Values.{text_or_empty}
use voucher_management_deskt.History.Resolve.{
  Candidates, Targets, add_candidates, identity_of, labels_of_record, labels_of_records, replicate,
  copies_of, is_consistent, resolve_records, resolve_with, ResolvedPendingPrint, resolved,
  candidate_ids,
}
use voucher_management_deskt.History.Resolve.Targeted.{
  is_candidate, AreTargets, is_pair, ids_of, add_candidates-AreTargets, candidates_within, get-All,
  IsTarget, IsStableTarget,
}

module _ (os : Platform) (secret : String) (c : Candidates) (py : Python) where
  -- the digest of the record is that of the code; or it has a `voucher_ref`, which is that of the id that
  -- was given with the code
  abbrev pub IsExact : Fields → String × String → Type 0
  IsExact r l =
      (is_candidate os secret c l.0 ≡ true)
      × (((text_or_empty py (find "voucher_ref" r) ≡ "")
            × (digest os l.0 secret ≡ ok (text_or_empty py (find "voucher_id" r))))
          ⊎ ((is_empty (text_or_empty py (find "voucher_ref" r)) ≡ false)
              × (stable_digest os c.site_id l.1 secret ≡ text_or_empty py (find "voucher_ref" r))
              × (is_pair c.candidate_codes (ids_of c) l ≡ true)))

  -- each record gives its label once for every physical copy of a document copy
  abbrev pub AreLabels : Fields → List Fields → List (String × String) → Type 0
  AreLabels first [] ls = ls ≡ []
  AreLabels first (r ∷ rs) ls =
      (l : String × String) × (rest : List (String × String)) × (ls
        ≡ replicate
            (copies_of (find "physical_copies" r) / copies_of (find "document_copies" first)) l
          ++ rest)
      × (copies_of (find "physical_copies" r) % copies_of (find "document_copies" first) ≡ 0)
      × (is_consistent py first r ≡ true)
      × IsExact r l
      × AreLabels first rs rest

  nil_of_empty : (s : String) → is_empty s ≡ true → s ≡ ""
  nil_of_empty String.[] h = refl
  nil_of_empty (String.◌∷◌ x s) h = cc

  identity_of-IsExact :
      (t : Targets) (r : Fields) {l : String × String}
      → AreTargets os secret c t
      → identity_of py t r ≡ some l
      → IsExact r l
  unfolding identity_of
  identity_of-IsExact t r {l} h e =
      let ref = text_or_empty py (find "voucher_ref" r) in
      let id = text_or_empty py (find "voucher_id" r) in
      elim (Bool-cases (is_empty ref)) [
        | inl b ↦ elim (Option-cases (get id t.digest_to_code)) [
          | inl n ↦ absurd (ground arith)
          | inr (code, g) ↦
              let (d, m) = get-All (IsTarget os secret c) id t.digest_to_code h.0 g in
              subst (IsExact r) {x = (code, "")} {y = l} (ground arith)
                (m, inl (nil_of_empty ref b, d))
        ]
        | inr b ↦
            let (d, m, p) =
              get-All (IsStableTarget os secret c) ref t.stable_to_identity {v = l} h.1
                (ground arith) in
            (m, inr (b, d, p))
      ]

  labels_of_record-ok :
      (t : Targets) (first r : Fields) {ls : List (String × String)}
      → labels_of_record py t first r ≡ ok ls
      → (l : String × String) × (ls
          ≡ replicate
              (copies_of (find "physical_copies" r) / copies_of (find "document_copies" first))
              l)
        × (copies_of (find "physical_copies" r) % copies_of (find "document_copies" first) ≡ 0)
        × (is_consistent py first r ≡ true)
        × (identity_of py t r ≡ some l)
  unfolding labels_of_record
  labels_of_record-ok t first r {ls} e =
      let copies = copies_of (find "document_copies" first) in
      let physical = copies_of (find "physical_copies" r) in
      elim (Option-cases (identity_of py t r)) [
        | inl n ↦ absurd (ground arith)
        | inr (l, s) ↦
            (l, ground arith, ground (arith, eqb_iff (physical % copies) 0), ground arith, s)
      ]

  labels_of_records-AreLabels :
      (t : Targets) (first : Fields) (rs : List Fields) {ls : List (String × String)}
      → AreTargets os secret c t
      → labels_of_records py t first rs ≡ ok ls
      → AreLabels first rs ls
  unfolding labels_of_records
  labels_of_records-AreLabels t first [] h e = sym (ok_injective e)
  labels_of_records-AreLabels t first (r ∷ rs) {ls} h e =
      elim (Result-cases (labels_of_record py t first r)) [
        | inl (ms, f) ↦ elim (Result-cases (labels_of_records py t first rs)) [
          | inl (rest, g) ↦
              let (l, a, b, k, i) = labels_of_record-ok t first r f in
              let joined : ms ++ rest ≡ ls = ground arith in
              (
                l,
                rest,
                sym joined ∙ ap (λ m. m ++ rest) a,
                b,
                k,
                identity_of-IsExact t r h i,
                labels_of_records-AreLabels t first rs h g,
              )
          | inr (x, g) ↦ absurd (ground arith)
        ]
        | inr (x, f) ↦ absurd (ground arith)
      ]

  -- What a resolved print is: the codes are those of the labels, record by record.
  abbrev pub IsResolution : PendingPrintAudit → ResolvedPendingPrint → Type 0
  IsResolution p s =
      (first : Fields) × (rest : List Fields) × (ls : List (String × String)) × (p.records
        ≡ first ∷ rest)
      × (s.codes ≡ map (λ (l : String × String). l.0) ls)
      × (s.state ≡ p.state)
      × (s.audit_id ≡ p.audit_id)
      × AreLabels first p.records ls

  resolve_records-IsResolution :
      (t : Targets) (p : PendingPrintAudit) (rs : List Fields) {s : ResolvedPendingPrint}
      → AreTargets os secret c t
      → p.records ≡ rs
      → resolve_records py t p rs ≡ ok (some s)
      → IsResolution p s
  unfolding resolve_records resolved
  resolve_records-IsResolution t p [] h q e = absurd (ground arith)
  resolve_records-IsResolution t p (first ∷ rest) {s} h q e =
      elim (Result-cases (labels_of_records py t first (first ∷ rest))) [
        | inl (ls, f) ↦ (
          first,
          rest,
          ls,
          q,
          ground arith,
          ground arith,
          ground arith,
          subst (λ rs. AreLabels first rs ls) (sym q)
              (labels_of_records-AreLabels t first (first ∷ rest) h f),
        )
        | inr (x, f) ↦ absurd (ground arith)
      ]

  abbrev no_targets : Targets
  no_targets = record { digest_to_code = []; stable_to_identity = [] }

  candidate_ids-ok : {ids : List String} → candidate_ids c ≡ ok ids → ids ≡ ids_of c
  unfolding candidate_ids
  candidate_ids-ok {ids} e = elim (Option-cases c.candidate_unifi_ids) [
    | inl n ↦ rw n (sym (ok_injective (rw n at e)))
    | inr (given, n) ↦ elim (Bool-cases (eqb (length given) (length c.candidate_codes))) [
      | inl b ↦ rw n (sym (ok_injective (rw (n, b) at e)))
      | inr b ↦ absurd (ground (arith, rw (n, b) at e))
    ]
  ]

  after_targets :
      (p : PendingPrintAudit) (ids : List String) {s : ResolvedPendingPrint}
      → ids ≡ ids_of c
      → (add_candidates os c.site_id secret c.candidate_codes ids no_targets >>= λ t.
          resolve_records py t p p.records)
        ≡ ok (some s)
      → IsResolution p s
  after_targets p ids {s} q e =
      elim (Result-cases (add_candidates os c.site_id secret c.candidate_codes ids no_targets)) [
        | inl (t, f) ↦
            resolve_records-IsResolution t p p.records {s = s}
              (add_candidates-AreTargets os secret c c.candidate_codes ids no_targets
                (candidates_within os secret c c.candidate_codes (map strip c.candidate_codes)
                  (λ s h. h))
                (λ l h. subst (λ x. is_pair c.candidate_codes x l ≡ true) q h) (tt, tt) f)
              refl (ground arith)
        | inr (x, f) ↦ absurd (ground arith)
      ]

  -- When a pending print is resolved, each of its records agrees with the first in file, copies and time,
  -- and gives one label for every physical copy of a document copy, with no remainder. The code of the
  -- label is one of the candidates; the record holds its digest, or, where it has a `voucher_ref`, this is
  -- the digest of the label's id, which was given with the code. The result lists the codes of the labels
  -- in the order of the records.
  pub resolve_with-IsResolution :
      (env : Env) (p : PendingPrintAudit) {s : ResolvedPendingPrint}
      → resolve_with py os env c p secret ≡ ok (some s)
      → IsResolution p s
  unfolding resolve_with
  resolve_with-IsResolution env p {s} e = elim (Result-cases (candidate_ids c)) [
    | inl (ids, f) ↦ after_targets p ids {s = s} (candidate_ids-ok f) (ground arith)
    | inr (x, f) ↦ absurd (ground arith)
  ]
