-- ===== src/Workflows/Absences/Returns.antt =====
-- When `verify_snapshot_absences` (workflows.py) returns.
use voucher_management_deskt.Models.{ApiVoucher}
use voucher_management_deskt.Prelude.{
  List, String, ◌≢◌, ◌≡◌, Bool-cases, refl, ◌∷◌, [], is_empty, strip, ◌||◌, holds, inl, inr, ◌++◌,
}
use voucher_management_deskt.Workflows.Absences.{
  verify_snapshot_absences, SnapshotAbsenceOutcome, classify, verify_all, verify_one, Verification,
  start, outcome_of,
}
use voucher_management_deskt.Workflows.Remote.{
  UniFi, Call, fail, other_exception, answer, Reply, not_found, mutation_uncertain, api_error,
  get_voucher,
}

module _ (unifi : UniFi)
    (calm : (log : List Call) (u : String) → unifi.on_get log u ≢ fail other_exception) where
  classify_returns :
      (o : Verification) (u : String) (r : Reply ApiVoucher) (log : List Call)
      → r ≢ fail other_exception
      → (o' : Verification) × ((classify o u r log).0 ≡ answer o')
  unfolding classify
  classify_returns o u (answer live) log h = (_, refl)
  classify_returns o u (fail not_found) log h = (_, refl)
  classify_returns o u (fail mutation_uncertain) log h = (_, refl)
  classify_returns o u (fail api_error) log h = (_, refl)
  classify_returns o u (fail other_exception) log h = absurd (h refl)

  one_returns :
      (o : Verification) (u : String) (log : List Call)
      → (o' : Verification) × ((verify_one unifi o u log).0 ≡ answer o')
  unfolding verify_one
  one_returns o u log = elim (Bool-cases (is_empty (strip u) || holds (strip u) o.by_id)) [
    | inl e ↦ (o, rw e refl)
    | inr e ↦
        let (o', q) =
          classify_returns o (strip u) (unifi.on_get log (strip u))
            (log ++ get_voucher (strip u) ∷ []) (calm log (strip u)) in
        (o', rw e q)
  ]

  all_return :
      (us : List String) (o : Verification) (log : List Call)
      → (o' : Verification) × ((verify_all unifi o us log).0 ≡ answer o')
  unfolding verify_all
  all_return [] o log = (o, refl)
  all_return (u ∷ us) o log =
      let (o', q) = one_returns o u log in
      let (o3, q') = all_return us o' (verify_one unifi o u log).1 in (o3, rw q q')

-- If the controller answers every GET, or fails with a UniFi error, the verification returns an outcome.
pub verification_returns :
    (unifi : UniFi) (snapshot : List ApiVoucher) (candidates : List String) (log : List Call)
    → ((l : List Call) (u : String) → unifi.on_get l u ≢ fail other_exception)
    → (o : SnapshotAbsenceOutcome) × ((verify_snapshot_absences unifi snapshot candidates log).0
        ≡ answer o)
unfolding verify_snapshot_absences
verification_returns unifi snapshot candidates log calm =
    let (o, q) = all_return unifi calm candidates (start snapshot) log in (outcome_of o, rw q refl)
