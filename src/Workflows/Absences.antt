-- ===== src/Workflows/Absences.antt =====
-- `verify_snapshot_absences` of workflows.py.
pub mod Loop
pub mod Evidence
pub mod Coverage
mod Tests
pub mod Returns
use voucher_management_deskt.Models.{ApiVoucher}
use voucher_management_deskt.Prelude.{
  List, [], ◌∷◌, String, strip, if◌then◌else◌, is_empty, ◌||◌, ◌==◌, put, map, Dict, holds,
}
use voucher_management_deskt.Workflows.Remote.{
  Remote, UniFi, Reply, pure, ◌>>=◌, fail, raise, answer, attempt, call_get, not_found,
  other_exception,
}

-- the sets are lists here
pub record SnapshotAbsenceOutcome : Type 0 where
  pub vouchers : List ApiVoucher
  pub confirmed_absent_ids : List String
  pub unresolved_ids : List String
  pub recovered_ids : List String

-- the local variables of the loop; `by_id` is the dictionary
pub record Verification : Type 0 where
  pub by_id : Dict ApiVoucher
  pub confirmed : List String
  pub unresolved : List String
  pub recovered : List String

-- one candidate after its GET; an exception that is no UniFiApiError passes through
pub classify : Verification → String → Reply ApiVoucher → Remote Verification
classify o u (fail not_found) = pure (record o { confirmed = u ∷ o.confirmed })
classify o u (fail other_exception) = raise other_exception
classify o u (fail e) = pure (record o { unresolved = u ∷ o.unresolved })
classify o u (answer live) = pure (
    if strip live.id == u
    then record o { by_id = put u live o.by_id; recovered = u ∷ o.recovered }
    else record o { unresolved = u ∷ o.unresolved })

pub start_from : List ApiVoucher → Dict ApiVoucher → Dict ApiVoucher
start_from [] d = d
start_from (v ∷ vs) d = start_from vs (put v.id v d)

-- the variables before the loop
pub start : List ApiVoucher → Verification
unfolding start_from
start snapshot = record {
  by_id = start_from snapshot [];
  confirmed = [];
  unresolved = [];
  recovered = [];
}

pub outcome_of : Verification → SnapshotAbsenceOutcome
outcome_of o = record {
  vouchers = map (λ (e : String × ApiVoucher). e.1) o.by_id;
  confirmed_absent_ids = o.confirmed;
  unresolved_ids = o.unresolved;
  recovered_ids = o.recovered;
}

module _ (unifi : UniFi) where
  pub verify_one : Verification → String → Remote Verification
  unfolding classify
  verify_one o value =
      let remote = strip value in
      if is_empty remote || holds remote o.by_id
      then pure o
      else attempt (call_get unifi remote) (classify o remote)

  pub verify_all : Verification → List String → Remote Verification
  verify_all o [] = pure o
  verify_all o (u ∷ us) = verify_one o u >>= λ o'. verify_all o' us

  pub verify_snapshot_absences : List ApiVoucher → List String → Remote SnapshotAbsenceOutcome
  unfolding outcome_of start
  verify_snapshot_absences snapshot candidates =
      verify_all (start snapshot) candidates >>= λ o. pure (outcome_of o)
