-- ===== src/Workflows/Absences/Evidence.antt =====
-- On what evidence `verify_snapshot_absences` of workflows.py calls a voucher absent.
use voucher_management_deskt.Workflows.Absences.Loop.{Answers, from_answers, and_then, loop_rule}
use voucher_management_deskt.Models.{ApiVoucher}
use voucher_management_deskt.Workflows.Absences.{
  Verification, verify_one, classify, verify_snapshot_absences, SnapshotAbsenceOutcome, start,
}
use voucher_management_deskt.Prelude.{
  List, [], ◌∷◌, String, elem, ◌≢◌, ◌==◌, ◌≡◌, false, Bool-cases, arith, is_empty, eq_iff, strip,
  ◌||◌, inl, inr, holds, ◌++◌, subst, sym, refl,
}
use voucher_management_deskt.Workflows.Remote.{
  Reply, UniFi, answer, Call, fail, not_found, other_exception, get_voucher, mutation_uncertain,
  api_error,
}

module _ (unifi : UniFi) (u : String) where
  -- the controller never answers 404 to a GET of `u`
  abbrev pub NeverMissing : Type 0
  NeverMissing = (log : List Call) → unifi.on_get log u ≢ fail not_found

  classify_keeps :
      (o : Verification) (w : String) (r : Reply ApiVoucher) (log : List Call)
      → (w ≡ u → r ≢ fail not_found)
      → elem ◌==◌ u o.confirmed ≡ false
      → Answers (λ (o' : Verification). elem ◌==◌ u o'.confirmed ≡ false) (classify o w r log).0
  unfolding classify
  classify_keeps o w (fail not_found) log n h = ground (arith, eq_iff u w, n)
  classify_keeps o w (fail other_exception) log n h = tt
  classify_keeps o w (fail mutation_uncertain) log n h = h
  classify_keeps o w (fail api_error) log n h = h
  classify_keeps o w (answer live) log n h = elim (Bool-cases (strip live.id == w)) [
    | inl e ↦ rw e h
    | inr e ↦ rw e h
  ]

  one_keeps :
      NeverMissing
      → (o : Verification) (v : String) (log : List Call) → elem ◌==◌ u o.confirmed ≡ false
      → Answers
          (λ (o' : Verification). elem ◌==◌ u o'.confirmed ≡ false)
          (verify_one unifi o v log).0
  unfolding verify_one
  one_keeps n o v log h = elim (Bool-cases (is_empty (strip v) || holds (strip v) o.by_id)) [
    | inl e ↦ rw e h
    | inr e ↦ rw e (
        classify_keeps o (strip v) (unifi.on_get log (strip v)) (log ++ get_voucher (strip v) ∷ [])
          (λ q. subst (λ x. unifi.on_get log x ≢ fail not_found) (sym q) (n log)) h)
  ]

module _ (unifi : UniFi) (snapshot : List ApiVoucher) (candidates : List String)
    (log : List Call) where
  -- A voucher is reported as confirmed absent only if the controller has answered 404 to a direct GET
  -- of it: transport failures and list omissions never do.
  pub confirmed_needs_not_found :
      (u : String) (o : SnapshotAbsenceOutcome)
      → NeverMissing unifi u
      → (verify_snapshot_absences unifi snapshot candidates log).0 ≡ answer o
      → elem ◌==◌ u o.confirmed_absent_ids ≡ false
  unfolding verify_snapshot_absences
  confirmed_needs_not_found u o n e =
      from_answers (λ (x : SnapshotAbsenceOutcome). elem ◌==◌ u x.confirmed_absent_ids ≡ false) _ o
        (and_then (λ (x : Verification). elem ◌==◌ u x.confirmed ≡ false)
          (λ (x : SnapshotAbsenceOutcome). elem ◌==◌ u x.confirmed_absent_ids ≡ false) _ _ _
          (loop_rule unifi (λ (x : Verification). elem ◌==◌ u x.confirmed ≡ false)
            (one_keeps unifi u n) candidates (start snapshot) log refl)
          (λ a p. p))
        e
