-- ===== src/History/Resolve.antt =====
-- `resolve_pending_print` of history.py: the codes behind the digests of a pending print.
pub mod Targeted
pub mod Exact
pub mod Tests
use mathlib.Core.Option
use voucher_management_deskt.Recovery.Marker.{int_from}
use voucher_management_deskt.Database.Action.{
  Result, history_error, ok, damaged_pending, err, unresolved_voucher,
}
use voucher_management_deskt.Prelude.{
  String, ℕ, Bool, List, Option, true, strip, some, if◌then◌else◌, [], map, ◌==◌, is_empty, suc,
  none, filter_by, ◌&&◌, ◌∷◌, not, zero, ◌++◌, eqb, length, ◌%◌, ◌/◌,
}
use voucher_management_deskt.Prelude.Dicts.{Dict, put, get}
use voucher_management_deskt.Json.{Fields, Python, find, Json}
use voucher_management_deskt.History.Base.{Platform, Env, Disk, Action, ◌>>>◌, ◌>>=◌, guard, reads}
use voucher_management_deskt.History.Identity.{usable_secret, digest, stable_digest}
use voucher_management_deskt.History.Values.{text_or_empty}
use voucher_management_deskt.History.Pending.{PendingPrintAudit, load_pending_print, PrintStage}

pub record ResolvedPendingPrint : Type 0 where
  pub state : PrintStage
  pub audit_id : String
  pub codes : List String
  pub output_file : String
  pub document_copies : ℕ
  pub submitted_at : String
  pub unifi_ids : List String

-- the arguments, and the two dictionaries of targets
pub record Candidates : Type 0 where
  pub candidate_codes : List String
  pub site_id : String
  pub candidate_unifi_ids : Option (List String)

pub record Targets : Type 0 where
  pub digest_to_code : Dict String
  pub stable_to_identity : Dict (String × String)

-- a positive number that `_load_pending_print` has tested
unfoldable pub copies_of : Option Json → ℕ
copies_of v = elim (int_from 1 v) [ none ↦ 0 | some n ↦ n ]

-- `[value] * n`
unfoldable pub replicate {ℓ} : {A : Type ℓ} → ℕ → A → List A
replicate zero a = []
replicate (suc n) a = a ∷ replicate n a

-- the length test; the ids, stripped, and none where the caller gives none
unfoldable pub candidate_ids : Candidates → Result (List String)
candidate_ids c = elim c.candidate_unifi_ids [
  | none ↦ ok []
  | some ids ↦
      if eqb (length ids) (length c.candidate_codes)
      then ok (map strip ids)
      else err (history_error unresolved_voucher)
]

module _ (os : Platform) (site_id secret : String) where
  -- the candidate under its id, where it has one
  unfoldable pub add_identity : String → Option String → Targets → Targets
  add_identity code none t = t
  add_identity code (some remote_id) t =
      let stable = stable_digest os site_id remote_id secret in
      if is_empty stable
      then t
      else record t { stable_to_identity = put stable (code, remote_id) t.stable_to_identity }

  -- the digest is not that of another code
  unfoldable pub is_free : Option String → String → Bool
  is_free none code = true
  is_free (some previous) code = previous == code

  unfoldable pub add_candidate : String → Option String → Targets → Result Targets
  add_candidate raw remote_id t =
      let code = strip raw in
      if is_empty code
      then ok t
      else digest os code secret >>= λ d.
          guard (is_free (get d t.digest_to_code) code) (history_error unresolved_voucher) >>= λ _.
          ok (
            add_identity code remote_id (record t { digest_to_code = put d code t.digest_to_code }))

  -- the loop over the candidates
  unfoldable pub add_candidates : List String → List String → Targets → Result Targets
  add_candidates [] ids t = ok t
  add_candidates (c ∷ cs) [] t = add_candidate c none t >>= λ t'. add_candidates cs [] t'
  add_candidates (c ∷ cs) (i ∷ ids) t =
      add_candidate c (some i) t >>= λ t'. add_candidates cs ids t'

module _ (py : Python) where
  -- the record says what the first one says
  unfoldable pub is_consistent : Fields → Fields → Bool
  is_consistent first r =
      text_or_empty py (find "output_file" r) == text_or_empty py (find "output_file" first)
      && eqb (copies_of (find "document_copies" r)) (copies_of (find "document_copies" first))
      && text_or_empty py (find "timestamp" r) == text_or_empty py (find "timestamp" first)

  -- the code and the id of a record; the id is "" for a record without `voucher_ref`
  unfoldable pub identity_of : Targets → Fields → Option (String × String)
  identity_of t r =
      let stable = text_or_empty py (find "voucher_ref" r) in
      if is_empty stable
      then Option.map (λ code. (code, ""))
          (get (text_or_empty py (find "voucher_id" r)) t.digest_to_code)
      else get stable t.stable_to_identity

  -- the labels of one record
  unfoldable pub labels_of_record : Targets → Fields → Fields → Result (List (String × String))
  labels_of_record t first r =
      let copies = copies_of (find "document_copies" first) in
      let physical = copies_of (find "physical_copies" r) in
      guard (is_consistent first r) (history_error damaged_pending) >>= λ _.
      elim (identity_of t r) [
        | none ↦ err (history_error unresolved_voucher)
        | some identity ↦
            if eqb (physical % copies) 0
            then ok (replicate (physical / copies) identity)
            else err (history_error damaged_pending)
      ]

  unfoldable pub labels_of_records :
      Targets → Fields → List Fields → Result (List (String × String))
  labels_of_records t first [] = ok []
  labels_of_records t first (r ∷ rs) =
      labels_of_record t first r >>= λ ls. labels_of_records t first rs >>= λ ms. ok (ls ++ ms)

  -- the fields of the result
  unfoldable pub resolved :
      PendingPrintAudit → Fields → List (String × String) → ResolvedPendingPrint
  resolved p first labels = record {
    state = p.state;
    audit_id = p.audit_id;
    codes = map (λ (l : String × String). l.0) labels;
    output_file = text_or_empty py (find "output_file" first);
    document_copies = copies_of (find "document_copies" first);
    submitted_at = text_or_empty py (find "timestamp" first);
    unifi_ids = filter_by (λ i. not (is_empty i)) (map (λ (l : String × String). l.1) labels);
  }

  -- the loop over the records; a descriptor without records is not loaded
  unfoldable pub resolve_records :
      Targets → PendingPrintAudit → List Fields → Result (Option ResolvedPendingPrint)
  resolve_records t p [] = ok none
  resolve_records t p (first ∷ rs) =
      labels_of_records t first (first ∷ rs) >>= λ labels. ok (some (resolved p first labels))

  module _ (os : Platform) (env : Env) where
    -- the targets, and then the records
    unfoldable pub resolve_with :
        Candidates → PendingPrintAudit → String → Result (Option ResolvedPendingPrint)
    resolve_with c p secret = candidate_ids c >>= λ ids.
        add_candidates os c.site_id secret c.candidate_codes ids
          (record { digest_to_code = []; stable_to_identity = [] })
        >>= λ t. resolve_records t p p.records

    unfoldable pub resolve_loaded :
        Candidates → Option PendingPrintAudit → Action (Option ResolvedPendingPrint)
    resolve_loaded c none d = (ok none, d)
    resolve_loaded c (some p) d =
        (usable_secret os env >>> λ secret d'. (resolve_with c p secret, d')) d

    unfoldable pub resolve_pending_print : Candidates → Action (Option ResolvedPendingPrint)
    resolve_pending_print c = reads (λ d. load_pending_print py os d.pending) >>> resolve_loaded c
