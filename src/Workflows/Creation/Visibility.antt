-- ===== src/Workflows/Creation/Visibility.antt =====
-- What `create_vouchers_and_refresh` of workflows.py guarantees, whatever the controller answers.
use voucher_management_deskt.Workflows.Remote.{
  UniFi, Reply, Call, CreateParams, answer, fail, create_vouchers, list_vouchers,
  mutation_uncertain, is_api_error, other_exception, not_found, api_error,
}
use voucher_management_deskt.Models.{ApiVoucher, has_voucher, has_voucher-merge_by_id}
use voucher_management_deskt.Workflows.Creation.{
  after_post, after_created, create_vouchers_and_refresh, missing_created, CreateOutcome,
  all_visible,
}
use voucher_management_deskt.Prelude.{
  List, [], ◌∷◌, String, is_nil, ◌||◌, ◌≡◌, true, arith, ◌++◌, eq_refl, or_true_right, eq_iff,
  Bool-cases, refl, ◌==◌, ap, inl, inr, ◌∙◌, Bool, ◌≢◌, false,
}

visible_if :
    (created shown : List ApiVoucher)
    → ((u : String) → has_voucher u created ≡ true → has_voucher u shown ≡ true)
    → all_visible created shown ≡ true
visible_if [] shown h = refl
visible_if (v ∷ vs) shown h = ground (
  arith,
  eq_refl v.id,
  h v.id,
  visible_if vs shown (λ u e. h u (or_true_right (v.id == u) (has_voucher u vs) e)),
)

listed_or_missing :
    (u : String) (created refreshed : List ApiVoucher)
    → has_voucher u created ≡ true
    → (has_voucher u refreshed || has_voucher u (missing_created created refreshed)) ≡ true
listed_or_missing u [] refreshed h = cc
listed_or_missing u (v ∷ vs) refreshed h = ground (
  arith,
  listed_or_missing u vs refreshed,
  eq_iff v.id u,
  ap (λ x. has_voucher x refreshed) {x = v.id} {y = u},
)

nothing_missing :
    (created refreshed : List ApiVoucher)
    → is_nil (missing_created created refreshed) ≡ true
    → all_visible created refreshed ≡ true
nothing_missing [] refreshed h = refl
nothing_missing (v ∷ vs) refreshed h = ground (arith, nothing_missing vs refreshed)

abbrev Shows : List ApiVoucher → CreateOutcome → Type 0
Shows created o = (o.created ≡ created) × (all_visible created o.vouchers ≡ true)

abbrev Answers : (CreateOutcome → Type 0) → Reply CreateOutcome → Type 0
Answers P (answer o) = P o
Answers P (fail e) = Unit

shown_after_created :
    (cached created : List ApiVoucher) (r : Reply (List ApiVoucher)) (log : List Call)
    → Answers (Shows created) (after_created cached created r log).0
unfolding after_created
shown_after_created cached created (answer refreshed) log =
    elim (Bool-cases (is_nil (missing_created created refreshed))) [
      | inl e ↦ rw e (refl, nothing_missing created refreshed e)
      | inr e ↦ rw e (
        refl,
        visible_if created _ (λ u h.
            has_voucher-merge_by_id u refreshed (missing_created created refreshed)
            ∙ listed_or_missing u created refreshed h),
      )
    ]
shown_after_created cached created (fail e) log = elim (Bool-cases (is_api_error e)) [
  | inl p ↦ rw p (
    refl,
    visible_if created _ (λ u h. has_voucher-merge_by_id u cached created ∙ or_true_right _ _ h),
  )
  | inr p ↦ rw p tt
]

abbrev is_answer : {A : Type 0} → Reply A → Bool
is_answer (answer a) = true
is_answer (fail e) = false

returned :
    {P : CreateOutcome → Type 0} (r : Reply CreateOutcome)
    → is_answer r ≡ true
    → Answers P r
    → (o : CreateOutcome) × (r ≡ answer o) × P o
returned (answer o) e h = (o, refl, h)
returned (fail x) e h = cc

returns_after_created :
    (cached created : List ApiVoucher) (r : Reply (List ApiVoucher)) (log : List Call)
    → r ≢ fail other_exception
    → is_answer (after_created cached created r log).0 ≡ true
unfolding after_created
returns_after_created cached created (answer refreshed) log h = refl
returns_after_created cached created (fail other_exception) log h = absurd (h refl)
returns_after_created cached created (fail not_found) log h = refl
returns_after_created cached created (fail mutation_uncertain) log h = refl
returns_after_created cached created (fail api_error) log h = refl

-- If the POST answers with vouchers, and the following list raises nothing but UniFi errors, then the
-- function returns an outcome: its created vouchers are those of the answer, and each of them is
-- among the vouchers that are shown, also when the list fails or omits them.
pub created_are_shown :
    (unifi : UniFi) (cached created : List ApiVoucher) (params : CreateParams) (log : List Call)
    → unifi.on_create log params ≡ answer created
    → unifi.on_list (log ++ create_vouchers params ∷ []) ≢ fail other_exception
    → (o : CreateOutcome) × ((create_vouchers_and_refresh unifi cached params log).0 ≡ answer o)
      × (o.created ≡ created)
      × (all_visible created o.vouchers ≡ true)
unfolding create_vouchers_and_refresh after_post
created_are_shown unifi cached created params log post list =
    let shown : List Call = log ++ create_vouchers params ∷ [] in
    let (o, e, p) =
      returned (after_created cached created (unifi.on_list shown) (shown ++ list_vouchers ∷ [])).0
        (returns_after_created cached created (unifi.on_list shown) (shown ++ list_vouchers ∷ [])
          list)
        (shown_after_created cached created (unifi.on_list shown) (shown ++ list_vouchers ∷ [])) in
    rw post (o, e, p.0, p.1)
