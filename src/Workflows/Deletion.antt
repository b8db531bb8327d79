-- ===== src/Workflows/Deletion.antt =====
-- The deletion workflow of workflows.py: a fresh read, the policy on every voucher, one DELETE, and a
-- list that does not show what was deleted.
pub mod Safety
mod Tests
use voucher_management_deskt.Database.Rows.{PrintState, printed, unknown, not_printed}
use voucher_management_deskt.Policy.{
  PrintStats, DeleteReason, print_unknown, is_allowed, printed_before, in_use,
  evaluate_delete_policy, not_aligned_row,
}
use voucher_management_deskt.Models.{ApiVoucher, code_formatted}
use voucher_management_deskt.Prelude.{
  List, [], ◌∷◌, Option, String, map, filter_by, if◌then◌else◌, elem, Bool, not, ◌==◌, some, none,
  any_by, false,
}
use voucher_management_deskt.Workflows.Remote.{
  Remote, UniFi, call_delete, pure, Reply, RemoteError, ◌>>=◌, answer, call_get, attempt, call_list,
  fail, is_api_error, raise,
}

-- the durable local facts that the policy takes as arguments
pub record LocalFacts : Type 0 where
  pub stats_by_code : String → Option PrintStats
  pub historically_used_ids : List String
  pub local_print_states : String → Option PrintState
  pub aligned_ids : List String
  pub exceptionally_deletable_ids : List String

pub record DeleteBlock : Type 0 where
  pub voucher : ApiVoucher
  pub policy : DeleteReason

-- `str(local_print_states.get(remote_id, UNKNOWN) or UNKNOWN)`, and the tests on it
by_print_state : Option PrintState → DeleteReason → DeleteReason
by_print_state none policy = print_unknown
by_print_state (some printed) policy = printed_before
by_print_state (some unknown) policy = print_unknown
by_print_state (some not_printed) policy = policy

-- the tests for one voucher, in their order
pub delete_decision : LocalFacts → ApiVoucher → DeleteReason
unfolding by_print_state
delete_decision f v =
    if elem ◌==◌ v.id f.historically_used_ids
    then in_use
    else if elem ◌==◌ v.id f.exceptionally_deletable_ids
    then evaluate_delete_policy v (f.stats_by_code (code_formatted v))
    else if not (elem ◌==◌ v.id f.aligned_ids)
    then not_aligned_row
    else by_print_state (f.local_print_states v.id)
        (evaluate_delete_policy v (f.stats_by_code (code_formatted v)))

pub evaluate_delete_candidates : LocalFacts → List ApiVoucher → List DeleteBlock
unfolding delete_decision
evaluate_delete_candidates f [] = []
evaluate_delete_candidates f (v ∷ vs) =
    let rest = evaluate_delete_candidates f vs in
    if is_allowed (delete_decision f v)
    then rest
    else record { voucher = v; policy = delete_decision f v } ∷ rest

module _ (unifi : UniFi) where
  pub refresh_delete_candidates : List ApiVoucher → Remote (List ApiVoucher)
  refresh_delete_candidates [] = pure []
  refresh_delete_candidates (v ∷ vs) = do
    live ← call_get unifi v.id
    rest ← refresh_delete_candidates vs
    pure (live ∷ rest)

-- the fields that the function gives
pub record DeleteOutcome : Type 0 where
  pub vouchers : List ApiVoucher
  pub refresh_error : Option RemoteError
  pub reconciliation_required : Bool

abbrev pub without_ids : List String → List ApiVoucher → List ApiVoucher
without_ids ids vs = filter_by (λ (v : ApiVoucher). not (elem ◌==◌ v.id ids)) vs

pub after_delete : List ApiVoucher → List String → Reply (List ApiVoucher) → Remote DeleteOutcome
after_delete cached ids (answer refreshed) = pure (record {
  vouchers = without_ids ids refreshed;
  refresh_error = none;
  reconciliation_required = any_by (λ (v : ApiVoucher). elem ◌==◌ v.id ids) refreshed;
})
after_delete cached ids (fail e) =
    if is_api_error e
    then pure (record {
      vouchers = without_ids ids cached;
      refresh_error = some e;
      reconciliation_required = false;
    })
    else raise e

abbrev pub ids_of : List ApiVoucher → List String
ids_of current = map (λ (v : ApiVoucher). v.id) current

module _ (unifi : UniFi) (cached current : List ApiVoucher) where
  pub delete_vouchers_and_refresh : Remote DeleteOutcome
  unfolding after_delete
  delete_vouchers_and_refresh = call_delete unifi (ids_of current) >>= λ _.
      attempt (call_list unifi) (after_delete cached (ids_of current))
