-- ===== src/Workflows/Absences/Tests.antt =====
-- Runs of the verification of absences (workflows.py).
use voucher_management_deskt.Workflows.Absences.Returns.{verification_returns}
use voucher_management_deskt.Workflows.Absences.Evidence.{confirmed_needs_not_found}
use voucher_management_deskt.Models.{ApiVoucher}
use voucher_management_deskt.Samples.{first_voucher}
use voucher_management_deskt.Workflows.Remote.{
  UniFi, Reply, answer, fail, not_found, api_error, Call, other_exception,
}
use voucher_management_deskt.Workflows.Absences.{
  verify_snapshot_absences, SnapshotAbsenceOutcome, verify_all, verify_one, classify, start,
  start_from, outcome_of,
}
use voucher_management_deskt.Prelude.{
  String, elem, ◌==◌, ◌≡◌, ◌∷◌, false, [], if◌then◌else◌, strip, refl, List, ◌≢◌, Bool-cases, inl,
  arith, inr,
}

abbrev reply_to : String → Reply ApiVoucher
reply_to u = if u == "b" then fail not_found else fail api_error

-- "b" is gone, and a GET of any other voucher fails
abbrev unreachable : UniFi
unreachable = record {
  on_list = λ log. answer (first_voucher ∷ []);
  on_get = λ log u. reply_to u;
  on_create = λ log p. fail api_error;
  on_delete = λ log ids. fail api_error;
}

abbrev outcome : SnapshotAbsenceOutcome
outcome = record {
  vouchers = first_voucher ∷ [];
  confirmed_absent_ids = "b" ∷ [];
  unresolved_ids = "c" ∷ [];
  recovered_ids = [];
}

outcome_of_run :
    (verify_snapshot_absences unreachable (first_voucher ∷ []) ("a" ∷ "c" ∷ "b" ∷ []) []).0
    ≡ answer outcome
unfolding verify_snapshot_absences verify_all verify_one classify start start_from outcome_of strip
outcome_of_run = refl

confirmed_needs_not_found_example : elem ◌==◌ "c" outcome.confirmed_absent_ids ≡ false
confirmed_needs_not_found_example =
    confirmed_needs_not_found unreachable (first_voucher ∷ []) ("a" ∷ "c" ∷ "b" ∷ []) [] "c" outcome
      (λ log h. cc) outcome_of_run

calm : (l : List Call) (u : String) → unreachable.on_get l u ≢ fail other_exception
calm l u = elim (Bool-cases (u == "b")) [
  | inl e ↦ λ h. absurd (ground (arith, rw e at h))
  | inr e ↦ λ h. absurd (ground (arith, rw e at h))
]

verification_returns_example :
    (o : SnapshotAbsenceOutcome) × ((verify_snapshot_absences unreachable
        (first_voucher ∷ [])
        ("a" ∷ "c" ∷ "b" ∷ [])
        []).0
      ≡ answer o)
verification_returns_example =
    verification_returns unreachable (first_voucher ∷ []) ("a" ∷ "c" ∷ "b" ∷ []) [] calm
