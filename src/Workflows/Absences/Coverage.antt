-- ===== src/Workflows/Absences/Coverage.antt =====
-- Every candidate of `verify_snapshot_absences` of workflows.py ends in a class.
use voucher_management_deskt.Workflows.Absences.Loop.{
  Answers, from_answers, and_then, loop_rule, both, anything,
}
use voucher_management_deskt.Models.{ApiVoucher, has_voucher}
use voucher_management_deskt.Workflows.Absences.{
  verify_all, Verification, verify_one, classify, verify_snapshot_absences, SnapshotAbsenceOutcome,
  start_from, start, outcome_of,
}
use voucher_management_deskt.Prelude.{
  List, [], ◌∷◌, String, elem, ◌==◌, ◌≡◌, false, Bool-cases, arith, is_empty, eq_iff, strip, ◌||◌,
  inl, inr, holds, ◌++◌, sym, map, true, Bool, eq_refl, holds-put, Dict, refl, put,
}
use voucher_management_deskt.Workflows.Remote.{
  Reply, UniFi, answer, Call, fail, not_found, other_exception, get_voucher, mutation_uncertain,
  api_error,
}

abbrev pub covered : String → Verification → Bool
covered u o = holds u o.by_id || elem ◌==◌ u o.confirmed || elem ◌==◌ u o.unresolved

module _ (unifi : UniFi) (u : String) where
  stays_covered :
      (o : Verification) (w : String) (r : Reply ApiVoucher) (log : List Call)
      → covered u o ≡ true
      → Answers (λ o'. covered u o' ≡ true) (classify o w r log).0
  unfolding classify
  stays_covered o w (fail not_found) log h = ground arith
  stays_covered o w (fail other_exception) log h = tt
  stays_covered o w (fail mutation_uncertain) log h = ground arith
  stays_covered o w (fail api_error) log h = ground arith
  stays_covered o w (answer live) log h = elim (Bool-cases (strip live.id == w)) [
    | inl e ↦ rw e (ground (arith, holds-put u w live o.by_id))
    | inr e ↦ rw e (ground arith)
  ]

  becomes_covered :
      (o : Verification) (r : Reply ApiVoucher) (log : List Call)
      → Answers (λ o'. covered u o' ≡ true) (classify o u r log).0
  unfolding classify
  becomes_covered o (fail not_found) log = ground (arith, eq_refl u)
  becomes_covered o (fail other_exception) log = tt
  becomes_covered o (fail mutation_uncertain) log = ground (arith, eq_refl u)
  becomes_covered o (fail api_error) log = ground (arith, eq_refl u)
  becomes_covered o (answer live) log = elim (Bool-cases (strip live.id == u)) [
    | inl e ↦ rw e (ground (arith, holds-put u u live o.by_id, eq_refl u))
    | inr e ↦ rw e (ground (arith, eq_refl u))
  ]

  one_stays :
      (o : Verification) (v : String) (log : List Call)
      → covered u o ≡ true
      → Answers (λ o'. covered u o' ≡ true) (verify_one unifi o v log).0
  unfolding verify_one
  one_stays o v log h = elim (Bool-cases (is_empty (strip v) || holds (strip v) o.by_id)) [
    | inl e ↦ rw e h
    | inr e ↦ rw e (
        stays_covered o (strip v) (unifi.on_get log (strip v)) (log ++ get_voucher (strip v) ∷ [])
          h)
  ]

  one_covers :
      (o : Verification) (v : String) (log : List Call)
      → is_empty u ≡ false
      → strip v ≡ u
      → Answers (λ o'. covered u o' ≡ true) (verify_one unifi o v log).0
  unfolding verify_one
  one_covers o v log n e = rw e (elim (Bool-cases (holds u o.by_id)) [
    | inl held ↦ rw (n, held) (ground arith)
    | inr new ↦ rw (n, new) (becomes_covered o (unifi.on_get log u) (log ++ get_voucher u ∷ []))
  ])

  all_covers :
      is_empty u ≡ false
      → (us : List String) (o : Verification) (log : List Call) → elem ◌==◌ u (map strip us) ≡ true
      → Answers (λ o'. covered u o' ≡ true) (verify_all unifi o us log).0
  unfolding verify_all
  all_covers n [] o log h = cc
  all_covers n (v ∷ us) o log h = elim (Bool-cases (u == strip v)) [
    | inl e ↦
        and_then (λ o'. covered u o' ≡ true) (λ o'. covered u o' ≡ true)
          (verify_one unifi o v log).0 (λ o'. verify_all unifi o' us) (verify_one unifi o v log).1
          (one_covers o v log n (sym ((eq_iff u (strip v)).0 e)))
          (λ o' p.
            loop_rule unifi (λ o'. covered u o' ≡ true) one_stays us o' (verify_one unifi o v log).1
              p)
    | inr e ↦
        and_then (λ o'. Unit {0}) (λ o'. covered u o' ≡ true) (verify_one unifi o v log).0
          (λ o'. verify_all unifi o' us) (verify_one unifi o v log).1
          (anything (verify_one unifi o v log).0)
          (λ o' p. all_covers n us o' (verify_one unifi o v log).1 (ground arith))
  ]

holds-start_from :
    (u : String) (vs : List ApiVoucher) (d : Dict ApiVoucher)
    → holds u (start_from vs d) ≡ (has_voucher u vs || holds u d)
unfolding start_from
holds-start_from u [] d = refl
holds-start_from u (v ∷ vs) d =
    ground (arith, holds-start_from u vs (put v.id v d), holds-put u v.id v d)

-- what the dictionary's keys are during the loop
abbrev Known : String → List ApiVoucher → Verification → Type 0
Known u snapshot o = holds u o.by_id ≡ (has_voucher u snapshot || elem ◌==◌ u o.recovered)

stays-Known :
    (unifi : UniFi) (u : String) (snapshot : List ApiVoucher) (o : Verification) (w : String)
    (r : Reply ApiVoucher) (log : List Call)
    → Known u snapshot o
    → Answers (Known u snapshot) (classify o w r log).0
unfolding classify
stays-Known unifi u snapshot o w (fail not_found) log h = h
stays-Known unifi u snapshot o w (fail other_exception) log h = tt
stays-Known unifi u snapshot o w (fail mutation_uncertain) log h = h
stays-Known unifi u snapshot o w (fail api_error) log h = h
stays-Known unifi u snapshot o w (answer live) log h = elim (Bool-cases (strip live.id == w)) [
  | inl e ↦ rw e (ground (arith, holds-put u w live o.by_id, eq_iff w u, eq_iff u w))
  | inr e ↦ rw e h
]

one-Known :
    (unifi : UniFi) (u : String) (snapshot : List ApiVoucher) (o : Verification) (v : String)
    (log : List Call)
    → Known u snapshot o
    → Answers (Known u snapshot) (verify_one unifi o v log).0
unfolding verify_one
one-Known unifi u snapshot o v log h =
    elim (Bool-cases (is_empty (strip v) || holds (strip v) o.by_id)) [
      | inl e ↦ rw e h
      | inr e ↦ rw e (
          stays-Known unifi u snapshot o (strip v) (unifi.on_get log (strip v))
            (log ++ get_voucher (strip v) ∷ []) h)
    ]

abbrev pub classified : String → List ApiVoucher → SnapshotAbsenceOutcome → Bool
classified u snapshot o =
    has_voucher u snapshot
    || elem ◌==◌ u o.recovered_ids
    || elem ◌==◌ u o.confirmed_absent_ids
    || elem ◌==◌ u o.unresolved_ids

module _ (unifi : UniFi) (snapshot : List ApiVoucher) (candidates : List String)
    (log : List Call) where
  -- Every candidate that is not blank ends in a class: it was in the snapshot, or it is recovered,
  -- confirmed absent, or unresolved. None is dropped.
  pub every_candidate_classified :
      (u : String) (o : SnapshotAbsenceOutcome)
      → is_empty u ≡ false
      → elem ◌==◌ u (map strip candidates) ≡ true
      → (verify_snapshot_absences unifi snapshot candidates log).0 ≡ answer o
      → classified u snapshot o ≡ true
  unfolding verify_snapshot_absences
  every_candidate_classified u o n m e =
      let run = verify_all unifi (start snapshot) candidates log in
      from_answers (λ x. classified u snapshot x ≡ true) _ o
        (and_then (λ x. (covered u x ≡ true) × Known u snapshot x)
          (λ x. classified u snapshot x ≡ true) run.0 (λ x l. (answer (outcome_of x), l)) run.1
          (both (λ x. covered u x ≡ true) (Known u snapshot) run.0
            (all_covers unifi u n candidates (start snapshot) log m)
            (loop_rule unifi (Known u snapshot) (one-Known unifi u snapshot) candidates
              (start snapshot) log (ground (arith, holds-start_from u snapshot []))))
          (λ a p. ground arith))
        e
