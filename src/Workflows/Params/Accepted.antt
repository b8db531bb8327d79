-- ===== src/Workflows/Params/Accepted.antt =====
-- Which validated parameters of workflows.py the client of unifi_api.py accepts.
use voucher_management_deskt.Prelude.Options.{◌>>=◌}
use voucher_management_deskt.Workflows.Remote.{CreateParams, answer, fail, api_error}
use voucher_management_deskt.UnifiApi.Mutations.{
  limit_invalid, checked_payload, duration_of, payload_of,
}
use voucher_management_deskt.Prelude.{
  ℕ, String, none, some, Option, ◌≡◌, ◌⊎◌, ◌≤◌, arith, strip, Option-cases, Bool-cases, is_empty,
  inl, inr, subst, false, ◌<◌, ◌*◌, strip-strip, sym,
}
use voucher_management_deskt.Json.{ℤ, pos, negsuc}
use voucher_management_deskt.Workflows.Params.{
  positive_text, limits_of, in_range, unit_of, quota_of, optional_positive_int, required_int,
  as_text, Conversions, Entry, boolean, whole, written, missing, validate_create_params,
}

-- what the validation establishes
record IsValid (p : CreateParams) : Type 0 where
  named : is_empty (strip p.recipient) ≡ false
  counted : (1 ≤ p.quantity) × (p.quantity ≤ 50)
  lasting : 1 ≤ p.expire_number
  timed : (p.expire_unit ≡ 1) ⊎ (p.expire_unit ≡ 60) ⊎ (p.expire_unit ≡ 1440)
  limited :
      (limit_invalid p.data_mb 1048576 ≡ false)
      × (limit_invalid p.down_mbps 100 ≡ false)
      × (limit_invalid p.up_mbps 100 ≡ false)

in_range-lem :
    (least most : ℕ) (z : ℤ) (n : ℕ)
    → in_range least (some most) z ≡ some n
    → (least ≤ n) × (n ≤ most)
unfolding in_range
in_range-lem least most (pos k) n h = ground arith
in_range-lem least most (negsuc k) n h = ground arith

in_range-least : (least : ℕ) (z : ℤ) (n : ℕ) → in_range least none z ≡ some n → least ≤ n
unfolding in_range
in_range-least least (pos k) n h = ground arith
in_range-least least (negsuc k) n h = ground arith

unit_of-lem : (s : String) (u : ℕ) → unit_of s ≡ some u → (u ≡ 1) ⊎ (u ≡ 60) ⊎ (u ≡ 1440)
unfolding unit_of
unit_of-lem s u h = ground arith

positive_duration : (n u : ℕ) → 1 ≤ n → (u ≡ 1) ⊎ (u ≡ 60) ⊎ (u ≡ 1440) → 1 ≤ n * u
positive_duration n u h (inl e) = subst (λ w. 1 ≤ n * w) (sym e) (omega arith)
positive_duration n u h (inr (inl e)) = subst (λ w. 1 ≤ n * w) (sym e) (omega arith)
positive_duration n u h (inr (inr e)) = subst (λ w. 1 ≤ n * w) (sym e) (omega arith)

module _ (py : Conversions) where
  positive_text-limit_valid :
      (most : ℕ) (s : String) (o : Option ℕ)
      → positive_text py most s ≡ some o
      → limit_invalid o most ≡ false
  positive_text-limit_valid most s o h = elim (Bool-cases (is_empty s)) [
    | inl e ↦ ground arith
    | inr e ↦ elim (Option-cases (py.int_of_text s)) [
      | inl e' ↦ ground arith
      | inr (z, e') ↦ elim (Option-cases (in_range 1 (some most) z)) [
        | inl e'' ↦ ground arith
        | inr (n, e'') ↦ ground (arith, in_range-lem 1 most z n e'')
      ]
    ]
  ]

  optional-limit_valid :
      (most : ℕ) (e : Entry) (o : Option ℕ)
      → optional_positive_int py most e ≡ some o
      → limit_invalid o most ≡ false
  unfolding optional_positive_int
  optional-limit_valid most missing o h = ground arith
  optional-limit_valid most (boolean b) o h = ground arith
  optional-limit_valid most (whole z) o h =
      positive_text-limit_valid most (strip (py.str_of (whole z))) o h
  optional-limit_valid most (written s) o h = positive_text-limit_valid most (strip s) o h

  limits_of-limit_valid :
      (a b d : Entry) (x : Option ℕ × Option ℕ × Option ℕ)
      → limits_of py a b d ≡ some x
      → (limit_invalid x.0 1048576 ≡ false)
        × (limit_invalid x.1 100 ≡ false)
        × (limit_invalid x.2 100 ≡ false)
  unfolding limits_of
  limits_of-limit_valid a b d x h = elim (Option-cases (optional_positive_int py 1048576 a)) [
    | inl e ↦ ground arith
    | inr (l, e) ↦ elim (Option-cases (optional_positive_int py 100 b)) [
      | inl e' ↦ ground arith
      | inr (m, e') ↦ elim (Option-cases (optional_positive_int py 100 d)) [
        | inl e'' ↦ ground arith
        | inr (n, e'') ↦ ground (
          arith,
          optional-limit_valid 1048576 a l e,
          optional-limit_valid 100 b m e',
          optional-limit_valid 100 d n e'',
        )
      ]
    ]
  ]

  bounded_int :
      (e : Entry) (least : ℕ) (most : ℕ) (n : ℕ)
      → (required_int py e >>= in_range least (some most)) ≡ some n
      → (least ≤ n) × (n ≤ most)
  bounded_int e least most n h = elim (Option-cases (required_int py e)) [
    | inl r ↦ ground arith
    | inr (z, r) ↦ in_range-lem least most z n (ground arith)
  ]

  least_int :
      (e : Entry) (least : ℕ) (n : ℕ)
      → (required_int py e >>= in_range least none) ≡ some n
      → least ≤ n
  least_int e least n h = elim (Option-cases (required_int py e)) [
    | inl r ↦ ground arith
    | inr (z, r) ↦ in_range-least least z n (ground arith)
  ]

  module _
      (recipient quantity mode quota expire_number expire_unit data_mb down_mbps up_mbps : Entry)
      (p : CreateParams)
      (valid : validate_create_params py recipient quantity mode quota expire_number expire_unit
          data_mb down_mbps up_mbps
        ≡ some p) where
    IsValid-of_validated : IsValid p
    unfolding validate_create_params
    IsValid-of_validated = elim (Option-cases (required_int py quantity >>= in_range 1 (some 50))) [
      | inl a ↦ ground arith
      | inr (q, a) ↦ elim (Option-cases (required_int py expire_number >>= in_range 1 none)) [
        | inl b ↦ ground arith
        | inr (n, b) ↦ elim (Option-cases (quota_of py (as_text py mode) quota)) [
          | inl d ↦ ground arith
          | inr (k, d) ↦ elim (Option-cases (unit_of (as_text py expire_unit))) [
            | inl e ↦ ground arith
            | inr (u, e) ↦ elim (Option-cases (limits_of py data_mb down_mbps up_mbps)) [
              | inl f ↦ ground arith
              | inr (l, f) ↦ ground (
                arith,
                strip-strip (as_text py recipient),
                bounded_int quantity 1 50 q a,
                least_int expire_number 1 n b,
                unit_of-lem (as_text py expire_unit) u e,
                limits_of-limit_valid data_mb down_mbps up_mbps l f,
              )
            ]
          ]
        ]
      ]
    ]

    -- Validated parameters are accepted by the client, and then sent as they are, exactly when the
    -- whole duration is at most 1,000,000 minutes; the client refuses all others of them.
    pub validate-checked_payload :
        (duration_of p ≤ 1000000 → checked_payload p ≡ answer (payload_of p))
        × (1000000 < duration_of p → checked_payload p ≡ fail api_error)
    unfolding checked_payload
    validate-checked_payload =
        let v = IsValid-of_validated in
        ground (arith, v, positive_duration p.expire_number p.expire_unit v.lasting v.timed)
