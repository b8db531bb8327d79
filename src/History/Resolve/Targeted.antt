-- ===== src/History/Resolve/Targeted.antt =====
-- The targets of `resolve_pending_print` of history.py: every code stands under its own digest.
use voucher_management_deskt.Database.Action.{ok, Result-cases, ok_injective}
use voucher_management_deskt.Prelude.{
  String, Bool, All, ◌≡◌, elem, ◌∷◌, true, some, Bool-cases, ◌==◌, arith, map, inl, [], strip, inr,
  subst, Option, List, all_by, is_empty, eq_iff, none, refl, ◌⊎◌, and_intro, eq_refl, or_true_right,
  false, ◌≢◌, ◌&&◌, ◌||◌,
}
use voucher_management_deskt.Prelude.Dicts.{Dict, put, get}
use voucher_management_deskt.History.Base.{Platform}
use voucher_management_deskt.History.Identity.{digest, stable_digest}
use voucher_management_deskt.History.Resolve.{
  Candidates, Targets, add_candidate, add_candidates, add_identity,
}

pub All-put :
    {V : Type 0} (P : String × V → Type 0) (k : String) (v : V) (d : Dict V)
    → P (k, v)
    → All P d
    → All P (put k v d)
All-put P k v [] p h = (p, tt)
All-put P k v (e ∷ d) p h = elim (Bool-cases (e.0 == k)) [
  | inl c ↦ rw c (p, h.1)
  | inr c ↦ rw c (h.0, All-put P k v d p h.1)
]

pub get-All :
    {V : Type 0} (P : String × V → Type 0) (k : String) (d : Dict V) {v : V}
    → All P d
    → get k d ≡ some v
    → P (k, v)
get-All P k [] h g = absurd (ground arith)
get-All P k (e ∷ d) {v} h g = elim (Bool-cases (e.0 == k)) [
  | inl c ↦ subst (λ x. P (x, v)) ((eq_iff e.0 k).0 c) (subst (λ y. P (e.0, y)) (ground arith) h.0)
  | inr c ↦ get-All P k d h.1 (ground arith)
]

-- Is this a code, with the id that stands at the same place?
abbrev pub is_pair : List String → List String → String × String → Bool
is_pair [] ids l = false
is_pair (raw ∷ cs) [] l = false
is_pair (raw ∷ cs) (i ∷ ids) l =
    let rest = is_pair cs ids l in (strip raw == l.0) && (i == l.1) || rest

abbrev ids_or_none : Option (List String) → List String
ids_or_none none = []
ids_or_none (some ids) = map strip ids

-- the ids of the candidates
abbrev pub ids_of : Candidates → List String
ids_of c = ids_or_none c.candidate_unifi_ids

no_pair : (cs : List String) (l : String × String) → is_pair cs [] l ≢ true
no_pair [] l = ground arith
no_pair (raw ∷ cs) l = ground arith

module _ (os : Platform) (secret : String) (c : Candidates) where
  -- a code of the caller's
  abbrev pub is_candidate : String → Bool
  is_candidate code = elem ◌==◌ code (map strip c.candidate_codes)

  abbrev pub IsTarget : String × String → Type 0
  IsTarget e = (digest os e.1 secret ≡ ok e.0) × (is_candidate e.1 ≡ true)

  abbrev pub IsStableTarget : String × (String × String) → Type 0
  IsStableTarget e =
      (stable_digest os c.site_id e.1.1 secret ≡ e.0)
      × (is_candidate e.1.0 ≡ true)
      × (is_pair c.candidate_codes (ids_of c) e.1 ≡ true)

  -- the id, where there is one, is that of the code
  abbrev IsPaired : String → Option String → Type 0
  IsPaired code none = Unit
  IsPaired code (some remote_id) = is_pair c.candidate_codes (ids_of c) (code, remote_id) ≡ true

  abbrev pub AreTargets : Targets → Type 0
  AreTargets t = All IsTarget t.digest_to_code × All IsStableTarget t.stable_to_identity

  add_identity-AreTargets :
      (code : String) (remote_id : Option String) (t : Targets)
      → is_candidate code ≡ true
      → IsPaired code remote_id
      → AreTargets t
      → AreTargets (add_identity os c.site_id secret code remote_id t)
  unfolding add_identity
  add_identity-AreTargets code none t m n h = h
  add_identity-AreTargets code (some remote_id) t m n h =
      let stable = stable_digest os c.site_id remote_id secret in
      elim (Bool-cases (is_empty stable)) [
        | inl e ↦ rw e h
        | inr e ↦ rw e (
          h.0,
          All-put IsStableTarget stable (code, remote_id) t.stable_to_identity (refl, m, n) h.1,
        )
      ]

  add_candidate-ok :
      (raw : String) (remote_id : Option String) (t : Targets) {t' : Targets}
      → add_candidate os c.site_id secret raw remote_id t ≡ ok t'
      → (t ≡ t')
        ⊎ ((k : String) × (digest os (strip raw) secret ≡ ok k)
            × (add_identity os c.site_id secret
                  (strip raw)
                  remote_id
                  (record t { digest_to_code = put k (strip raw) t.digest_to_code })
                ≡ t'))
  unfolding add_candidate
  add_candidate-ok raw remote_id t e = elim (Bool-cases (is_empty (strip raw))) [
    | inl b ↦ inl (ground arith)
    | inr b ↦ elim (Result-cases (digest os (strip raw) secret)) [
      | inl (k, f) ↦ inr (k, f, ground arith)
      | inr (x, f) ↦ absurd (ground arith)
    ]
  ]

  add_candidate-AreTargets :
      (raw : String) (remote_id : Option String) (t : Targets) {t' : Targets}
      → is_candidate (strip raw) ≡ true
      → IsPaired (strip raw) remote_id
      → AreTargets t
      → add_candidate os c.site_id secret raw remote_id t ≡ ok t'
      → AreTargets t'
  add_candidate-AreTargets raw remote_id t m n h e = elim (add_candidate-ok raw remote_id t e) [
    | inl q ↦ subst AreTargets q h
    | inr (k, f, q) ↦ subst AreTargets q (
        add_identity-AreTargets (strip raw) remote_id _ m n
          (All-put IsTarget k (strip raw) t.digest_to_code (f, m) h.0, h.1))
  ]

  pub add_candidates-AreTargets :
      (cs ids : List String) (t : Targets) {t' : Targets}
      → all_by (λ raw. is_candidate (strip raw)) cs ≡ true
      → ((l : String × String)
          → is_pair cs ids l ≡ true
          → is_pair c.candidate_codes (ids_of c) l ≡ true)
      → AreTargets t
      → add_candidates os c.site_id secret cs ids t ≡ ok t'
      → AreTargets t'
  unfolding add_candidates
  add_candidates-AreTargets [] ids t m n h e = subst AreTargets (ok_injective e) h
  add_candidates-AreTargets (raw ∷ cs) [] t {t'} m n h e =
      elim (Result-cases (add_candidate os c.site_id secret raw none t)) [
        | inl (u, f) ↦
            add_candidates-AreTargets cs [] u {t' = t'} (ground arith)
              (λ l e. absurd (no_pair cs l e))
              (add_candidate-AreTargets raw none t (ground arith) tt h f) (ground arith)
        | inr (x, f) ↦ absurd (ground arith)
      ]
  add_candidates-AreTargets (raw ∷ cs) (i ∷ ids) t {t'} m n h e =
      elim (Result-cases (add_candidate os c.site_id secret raw (some i) t)) [
        | inl (u, f) ↦
            add_candidates-AreTargets cs ids u {t' = t'} (ground arith)
              (λ l e. n l (or_true_right _ _ e))
              (add_candidate-AreTargets raw (some i) t (ground arith)
                (n (strip raw, i) (ground (arith, eq_refl (strip raw), eq_refl i))) h f)
              (ground arith)
        | inr (x, f) ↦ absurd (ground arith)
      ]

  pub candidates_within :
      (cs names : List String)
      → ((s : String) → elem ◌==◌ s (map strip cs) ≡ true → elem ◌==◌ s names ≡ true)
      → all_by (λ raw. elem ◌==◌ (strip raw) names) cs ≡ true
  candidates_within [] names h = refl
  candidates_within (raw ∷ cs) names h =
      and_intro (h (strip raw) (ground (arith, eq_refl (strip raw))))
        (candidates_within cs names (λ s e. h s (or_true_right _ _ e)))
