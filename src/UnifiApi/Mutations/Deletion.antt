-- ===== src/UnifiApi/Mutations/Deletion.antt =====
-- Which deletions `delete_vouchers` of unifi_api.py sends, and when it returns.
use voucher_management_deskt.UnifiApi.Mutations.{
  after_one, after_deleted, delete_one, delete_each, deletion_confirmed, delete_vouchers, cleaned,
}
use voucher_management_deskt.Workflows.Remote.{
  Reply-cases, Reply, answer, RemoteError, fail, mutation_uncertain, api_error,
}
use voucher_management_deskt.UnifiApi.Http.{
  Client, Request, delete_request, read_response, request, resolved_site,
}
use voucher_management_deskt.Prelude.{
  String, List, is_empty, ◌≡◌, false, ◌∷◌, map, ℕ, ◌++◌, arith, [], ◌≤◌, sym, length, ◌⊎◌, ++-nil,
  take, true, inl, inr, Bool-cases, refl, suc, ◌∙◌, ++-assoc, subst, ap, strip, is_nil,
}
use voucher_management_deskt.Json.{Python, Fields, find}

-- one DELETE per id
abbrev pub deletions : String → List String → List Request
deletions site ids = map (λ u. delete_request site u) ids

module _ (py : Python) (c : Client) (site : String) where
  -- the controller confirmed the deletion of this id, asked for after `log`
  pub IsConfirmed : List Request → String → Type 0
  IsConfirmed log u =
      (fields : Fields) × (read_response (delete_request site u)
          (c.transport log (delete_request site u))
        ≡ answer fields)
      × (deletion_confirmed py (find "vouchersDeleted" fields) ≡ true)

  -- and of all of them, in this order
  pub AreConfirmed : List Request → List String → Type 0
  AreConfirmed log [] = Unit
  AreConfirmed log (u ∷ us) =
      IsConfirmed log u × AreConfirmed (log ++ delete_request site u ∷ []) us

  -- the state after a run over `ids`: a confirmed prefix, and at most one further request, that failed
  pub record IsRun (log : List Request) (ids : List String) (r : Reply (Unit {0}))
      (log' : List Request) : Type 0 where
    pub sent : ℕ
    pub bounded : sent ≤ length ids
    pub logged : log' ≡ log ++ deletions site (take sent ids)
    pub confirmed :
        (r ≡ answer tt × sent ≡ length ids × AreConfirmed log ids)
        ⊎ ((e : RemoteError) × (done : ℕ) × (r ≡ fail e)
            × (sent ≡ suc done)
            × AreConfirmed log (take done ids))

  module _ (keyed : is_empty c.api_key ≡ false) where
    delete_one-cases :
        (u : String) (log : List Request)
        → ((delete_one py c site u log ≡ (answer tt, log ++ delete_request site u ∷ []))
            × IsConfirmed log u)
          ⊎ ((e : RemoteError) × (delete_one py c site u log
                ≡ (fail e, log ++ delete_request site u ∷ [])))
    unfolding delete_one IsConfirmed request
    delete_one-cases u log =
        elim (Reply-cases
          (read_response (delete_request site u) (c.transport log (delete_request site u)))) [
            | inr (e, r) ↦ inr (e, ground arith)
            | inl (fields, r) ↦
                elim (Bool-cases (deletion_confirmed py (find "vouchersDeleted" fields))) [
                  | inl d ↦ inl (ground arith, (fields, r, d))
                  | inr d ↦ inr (mutation_uncertain, ground arith)
                ]
          ]

    confirm-IsRun :
        (u : String) (us : List String) (log : List Request) (r : Reply (Unit {0}))
        (log' : List Request)
        → IsConfirmed log u
        → IsRun (log ++ delete_request site u ∷ []) us r log'
        → IsRun log (u ∷ us) r log'
    unfolding AreConfirmed
    confirm-IsRun u us log r log' d run = record {
      sent = suc run.sent;
      bounded = omega (arith, run.bounded);
      logged =
          run.logged
          ∙ ++-assoc log (delete_request site u ∷ []) (deletions site (take run.sent us));
      confirmed = elim run.confirmed [
        | inl (a, n, all) ↦ inl (a, omega (arith, n), (d, all))
        | inr (e, done, f, n, all) ↦ inr (e, suc done, f, omega (arith, n), (d, all))
      ];
    }

    delete_each-IsRun :
        (deleted : ℕ) (ids : List String) (log : List Request)
        → IsRun log ids
            (delete_each py c site deleted ids log).0
            (delete_each py c site deleted ids log).1
    unfolding delete_each AreConfirmed
    delete_each-IsRun deleted [] log = record {
      sent = 0;
      bounded = omega arith;
      logged = sym (++-nil log);
      confirmed = inl (refl, refl, tt);
    }
    delete_each-IsRun deleted (u ∷ us) log =
        let state = λ (s : Reply (Unit {0}) × List Request).
          after_one (delete_each py c site (suc deleted) us) deleted s.0 s.1 in
        elim (delete_one-cases u log) [
          | inl (r, d) ↦
              subst (λ s. IsRun log (u ∷ us) s.0 s.1) (sym (ap state r))
                (confirm-IsRun u us log _ _ d
                  (delete_each-IsRun (suc deleted) us (log ++ delete_request site u ∷ [])))
          | inr (e, r) ↦
              subst (λ s. IsRun log (u ∷ us) s.0 s.1) (sym (ap state r))
                (record {
                  sent = 1;
                  bounded = omega arith;
                  logged = refl;
                  confirmed = inr (after_deleted deleted e, 0, refl, refl, tt);
                })
        ]

module _ (py : Python) (c : Client) where
  unkeyed :
      (site : String) (ids : List String) (log : List Request)
      → is_empty c.api_key ≡ true
      → is_nil ids ≡ false
      → delete_each py c site 0 ids log ≡ (fail api_error, log)
  unfolding delete_each delete_one request
  unkeyed site [] log h n = ground arith
  unkeyed site (u ∷ us) log h n = ground arith

  -- A deletion sends nothing and fails, or it sends the DELETEs of a prefix of the cleaned ids, in their
  -- order: of all of them, each confirmed, when it returns, and of a confirmed prefix and one id more
  -- when it fails.
  pub delete_vouchers-IsRun :
      (voucher_ids : List String) (log : List Request)
      → (delete_vouchers py c voucher_ids log ≡ (fail api_error, log))
        ⊎ IsRun py c
            (strip c.site_id)
            log
            (cleaned voucher_ids)
            (delete_vouchers py c voucher_ids log).0
            (delete_vouchers py c voucher_ids log).1
  unfolding delete_vouchers resolved_site
  delete_vouchers-IsRun voucher_ids log =
      let ids = cleaned voucher_ids in
      elim (Bool-cases (is_nil ids)) [
        | inl n ↦ inl (ground arith)
        | inr some_ids ↦ elim (Bool-cases (is_empty (strip c.site_id))) [
          | inl n ↦ inl (ground arith)
          | inr sited ↦ elim (Bool-cases (is_empty c.api_key)) [
            | inl n ↦ inl (ground (arith, unkeyed (strip c.site_id) ids log n some_ids))
            | inr keyed ↦ inr (
                subst
                  (λ (s : Reply (Unit {0}) × List Request).
                    IsRun py c (strip c.site_id) log ids s.0 s.1)
                  (ground arith) (delete_each-IsRun py c (strip c.site_id) keyed 0 ids log))
          ]
        ]
      ]
