-- ===== src/Database/Selection.antt =====
-- `WHERE controller_id=? AND unifi_id IN (...)` and `id IN (...)`: where as many rows are selected as
-- values are listed, and no value fits two rows, every value has its row. The program compares
-- these two numbers before it writes.
use voucher_management_deskt.Prelude.{
  ℕ, ◌+◌, ◌≤◌, ◌<◌, ◌≡◌, refl, String, ◌==◌, Bool, true, false, ◌&&◌, List, [], ◌∷◌, arith, eqb,
  any_by, all_by, length, count_by, elem, sym, ap, Bool-cases, eq_iff, inl, eqb_iff, inr,
}
use mathlib.Core.Path.{fun_ext}
use native.Mathlib.Nat.{le_of_eq}
use voucher_management_deskt.Database.Rows.{Voucher, has_key, has_id}
use voucher_management_deskt.Database.WellFormed.{IsWellFormed, KeysUnique, Ascending}
use voucher_management_deskt.Prelude.{All}

abbrev pub selected : ℕ → List String → Voucher → Bool
selected c ids v = eqb v.controller_id c && elem ◌==◌ v.unifi_id ids

module _ {ℓ κ} {K : Type κ} {A : Type ℓ} (fits : K → A → Bool) where
  -- `x` fits one of the keys
  abbrev pub fits_any : List K → A → Bool
  fits_any ks x = any_by (λ k. fits k x) ks

  count-cons :
      (k : K) (ks : List K) (xs : List A)
      → count_by (fits_any (k ∷ ks)) xs ≤ count_by (fits k) xs + count_by (fits_any ks) xs
  count-cons k ks [] = omega arith
  count-cons k ks (x ∷ xs) = ground (arith, count-cons k ks xs)

  count-nil : (xs : List A) → count_by (fits_any []) xs ≡ 0
  count-nil [] = refl
  count-nil (x ∷ xs) = count-nil xs

  any_by-count : (k : K) (xs : List A) → 0 < count_by (fits k) xs → any_by (fits k) xs ≡ true
  any_by-count k [] h = absurd (omega arith)
  any_by-count k (x ∷ xs) h = ground (arith, any_by-count k xs)

  module _ (xs : List A) (once : (k : K) → count_by (fits k) xs ≤ 1) where
    count-le-length : (ks : List K) → count_by (fits_any ks) xs ≤ length ks
    count-le-length [] = omega (arith, count-nil xs)
    count-le-length (k ∷ ks) = omega (arith, count-cons k ks xs, once k, count-le-length ks)

    -- As many hits as keys: every key has a hit.
    pub all_hit :
        (ks : List K)
        → length ks ≤ count_by (fits_any ks) xs
        → all_by (λ k. any_by (fits k) xs) ks ≡ true
    all_hit [] h = refl
    all_hit (k ∷ ks) h = rw (
      any_by-count k xs (omega (arith, count-cons k ks xs, count-le-length ks)),
      all_hit ks (omega (arith, count-cons k ks xs, once k)),
    )

no_row :
    (c : ℕ) (u : String) (vs : List Voucher)
    → any_by (has_key c u) vs ≡ false
    → count_by (has_key c u) vs ≡ 0
no_row c u [] h = refl
no_row c u (v ∷ vs) h = ground (arith, no_row c u vs)

-- The UNIQUE constraint: a key selects one row at most.
pub one_row_per_key :
    (c : ℕ) (u : String) (vs : List Voucher) → KeysUnique vs → count_by (has_key c u) vs ≤ 1
one_row_per_key c u [] h = omega arith
one_row_per_key c u (v ∷ vs) h =
    ground (arith, one_row_per_key c u vs h.1, no_row c u vs, eq_iff v.unifi_id u)

no_row_above :
    (n k : ℕ) (vs : List Voucher) → n ≡ k → All (λ w. n < w.id) vs → count_by (has_id k) vs ≡ 0
no_row_above n k [] e h = refl
no_row_above n k (v ∷ vs) e h = ground (arith, no_row_above n k vs e h.1)

-- The primary key: a rowid selects one row at most.
pub one_row_per_id : (k : ℕ) (vs : List Voucher) → Ascending vs → count_by (has_id k) vs ≤ 1
one_row_per_id k [] h = omega arith
one_row_per_id k (v ∷ vs) h = elim (Bool-cases (eqb v.id k)) [
  | inl e ↦ rw e (omega (arith, no_row_above v.id k vs ((eqb_iff v.id k).0 e) h.0))
  | inr e ↦ rw e (one_row_per_id k vs h.1)
]

selected-fits :
    (c : ℕ) (ids : List String) (v : Voucher) → selected c ids v ≡ fits_any (has_key c) ids v
selected-fits c [] v = ground arith
selected-fits c (u ∷ ids) v = ground (arith, selected-fits c ids v)

-- As many rows as listed remote ids: every listed id has its row.
pub every_id_selected :
    (c : ℕ) (ids : List String) (vs : List Voucher)
    → IsWellFormed vs
    → count_by (selected c ids) vs ≡ length ids
    → all_by (λ u. any_by (has_key c u) vs) ids ≡ true
every_id_selected c ids vs w h =
    all_hit (has_key c) vs (λ u. one_row_per_key c u vs w.keys_unique) ids
      (rw (ap (λ p. count_by p vs) (fun_ext (selected-fits c ids))) at (le_of_eq (sym h)))
