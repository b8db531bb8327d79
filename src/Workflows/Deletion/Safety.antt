-- ===== src/Workflows/Deletion/Safety.antt =====
-- What the deletion workflow of workflows.py lets through, and what it shows afterwards.
use voucher_management_deskt.Workflows.Remote.{
  UniFi, Call, Reply, RemoteError, fail, answer, other_exception, delete_vouchers, not_found,
  mutation_uncertain, api_error,
}
use voucher_management_deskt.Database.Rows.{not_printed}
use voucher_management_deskt.Models.{ApiVoucher, code_formatted}
use voucher_management_deskt.Policy.{evaluate_delete_policy, is_allowed, has_print_job}
use voucher_management_deskt.Workflows.Deletion.{
  LocalFacts, delete_decision, after_delete, evaluate_delete_candidates,
  delete_vouchers_and_refresh, DeleteOutcome, without_ids, ids_of,
}
use voucher_management_deskt.Prelude.{
  elem, ◌==◌, ◌≡◌, true, false, arith, ◌↔◌, ◌⊎◌, some, List, String, All, [], ◌∷◌, any_by,
  Bool-cases, refl, ◌≢◌, inl, inr, ◌++◌,
}

-- The evidence that a deletion rests on.
pub record IsDeletable (f : LocalFacts) (v : ApiVoucher) : Type 0 where
  pub never_used : elem ◌==◌ v.id f.historically_used_ids ≡ false
  pub no_guest : v.used ≡ 0
  pub not_expired : (v.status == "EXPIRED") ≡ false
  pub not_in_use : (v.status == "USED_MULTIPLE") ≡ false
  pub no_print_job : has_print_job (f.stats_by_code (code_formatted v)) ≡ false
  pub prepared :
      (elem ◌==◌ v.id f.exceptionally_deletable_ids ≡ true)
      ⊎ ((elem ◌==◌ v.id f.aligned_ids ≡ true) × (f.local_print_states v.id ≡ some not_printed))

IsDeletable-of_allowed :
    (f : LocalFacts) (v : ApiVoucher) → is_allowed (delete_decision f v) ≡ true → IsDeletable f v
unfolding delete_decision evaluate_delete_policy
IsDeletable-of_allowed f v h = ground arith

allowed_of_deletable :
    (f : LocalFacts) (v : ApiVoucher) → IsDeletable f v → is_allowed (delete_decision f v) ≡ true
unfolding delete_decision evaluate_delete_policy
allowed_of_deletable f v h = ground arith

-- A voucher passes the policy exactly when every piece of evidence is positively there: unknown local
-- evidence blocks it.
pub is_allowed-IsDeletable :
    (f : LocalFacts) (v : ApiVoucher) → (is_allowed (delete_decision f v) ≡ true) ↔ IsDeletable f v
is_allowed-IsDeletable f v = (IsDeletable-of_allowed f v, allowed_of_deletable f v)

nil_of_deletable :
    (f : LocalFacts) (vs : List ApiVoucher)
    → All (IsDeletable f) vs
    → evaluate_delete_candidates f vs ≡ []
unfolding evaluate_delete_candidates
nil_of_deletable f [] h = refl
nil_of_deletable f (v ∷ vs) h = rw (allowed_of_deletable f v h.0, nil_of_deletable f vs h.1)

IsDeletable-of_nil :
    (f : LocalFacts) (vs : List ApiVoucher)
    → evaluate_delete_candidates f vs ≡ []
    → All (IsDeletable f) vs
unfolding evaluate_delete_candidates
IsDeletable-of_nil f [] h = tt
IsDeletable-of_nil f (v ∷ vs) h = elim (Bool-cases (is_allowed (delete_decision f v))) [
  | inl e ↦ (IsDeletable-of_allowed f v e, IsDeletable-of_nil f vs (ground arith))
  | inr e ↦ ground arith
]

-- No voucher of a selection is blocked exactly when each of them has all the evidence.
pub evaluate_delete_candidates-nil :
    (f : LocalFacts) (vs : List ApiVoucher)
    → (evaluate_delete_candidates f vs ≡ []) ↔ All (IsDeletable f) vs
evaluate_delete_candidates-nil f vs = (IsDeletable-of_nil f vs, nil_of_deletable f vs)

none_shown :
    (ids : List String) (vs : List ApiVoucher)
    → any_by (λ (v : ApiVoucher). elem ◌==◌ v.id ids) (without_ids ids vs) ≡ false
none_shown ids [] = refl
none_shown ids (v ∷ vs) = ground (arith, none_shown ids vs)

abbrev Hidden : List String → DeleteOutcome → Type 0
Hidden ids o = any_by (λ (v : ApiVoucher). elem ◌==◌ v.id ids) o.vouchers ≡ false

Hidden-after_delete :
    (cached : List ApiVoucher) (ids : List String) (r : Reply (List ApiVoucher)) (log : List Call)
    → r ≢ fail other_exception
    → (o : DeleteOutcome) × ((after_delete cached ids r log).0 ≡ answer o) × Hidden ids o
unfolding after_delete
Hidden-after_delete cached ids (answer refreshed) log h = (_, refl, none_shown ids refreshed)
Hidden-after_delete cached ids (fail other_exception) log h = absurd (h refl)
Hidden-after_delete cached ids (fail not_found) log h = (_, refl, none_shown ids cached)
Hidden-after_delete cached ids (fail mutation_uncertain) log h = (_, refl, none_shown ids cached)
Hidden-after_delete cached ids (fail api_error) log h = (_, refl, none_shown ids cached)

-- If the DELETE is confirmed, and the following list raises nothing but UniFi errors, then the
-- function returns an outcome that shows no deleted voucher, even where the list or the cache still
-- holds it.
pub deleted_are_hidden :
    (unifi : UniFi) (cached current : List ApiVoucher) (log : List Call)
    → unifi.on_delete log (ids_of current) ≡ answer tt
    → unifi.on_list (log ++ delete_vouchers (ids_of current) ∷ []) ≢ fail other_exception
    → (o : DeleteOutcome) × ((delete_vouchers_and_refresh unifi cached current log).0 ≡ answer o)
      × (any_by (λ (v : ApiVoucher). elem ◌==◌ v.id (ids_of current)) o.vouchers ≡ false)
unfolding delete_vouchers_and_refresh
deleted_are_hidden unifi cached current log d l =
    rw d (Hidden-after_delete cached (ids_of current) _ _ l)

-- A DELETE that raises is raised again, and no list is asked for: a partial deletion is never reported
-- as complete.
pub delete_error_surfaces :
    (unifi : UniFi) (cached current : List ApiVoucher) (log : List Call) (e : RemoteError)
    → unifi.on_delete log (ids_of current) ≡ fail e
    → delete_vouchers_and_refresh unifi cached current log
      ≡ (fail e, log ++ delete_vouchers (ids_of current) ∷ [])
unfolding delete_vouchers_and_refresh
delete_error_surfaces unifi cached current log e h = rw h
