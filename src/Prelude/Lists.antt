-- ===== src/Prelude/Lists.antt =====
-- Lists over the native numbers and Boolean tests: lengths, filters, membership, dict.fromkeys.
use Prim.Native.Nat.{ℕ, suc, ◌+◌, ◌≤◌}
use mathlib.Core.Path.{◌≡◌, refl, ap}
use mathlib.Core.Bool.{Bool, true, false, not, ◌&&◌, ◌||◌}
use mathlib.Core.Logic.{◌↔◌}
use mathlib.Core.List.{List, [], ◌∷◌, ◌++◌}
use mathlib.Core.Option.{Option, none, some}
use native.Mathlib.Omega.{arith}
use voucher_management_deskt.Prelude.Tests.{if◌then◌else◌}

module _ {ℓ} {A : Type ℓ} where
  abbrev pub length : List A → ℕ
  length [] = 0
  length (x ∷ xs) = suc (length xs)

  -- a comprehension's `if`
  abbrev pub filter_by : (A → Bool) → List A → List A
  filter_by p [] = []
  filter_by p (x ∷ xs) = let rest = filter_by p xs in if p x then x ∷ rest else rest

  -- how many rows a query returns, or an UPDATE's `rowcount`
  abbrev pub count_by : (A → Bool) → List A → ℕ
  count_by p xs = length (filter_by p xs)

  abbrev pub any_by : (A → Bool) → List A → Bool
  any_by p [] = false
  any_by p (x ∷ xs) = p x || any_by p xs

  abbrev pub all_by : (A → Bool) → List A → Bool
  all_by p [] = true
  all_by p (x ∷ xs) = p x && all_by p xs

  -- the first row of a query
  abbrev pub find_by : (A → Bool) → List A → Option A
  find_by p [] = none
  find_by p (x ∷ xs) = let rest = find_by p xs in if p x then some x else rest

  -- `UPDATE ... WHERE p`
  abbrev pub update_by : (A → Bool) → (A → A) → List A → List A
  update_by p f [] = []
  update_by p f (x ∷ xs) = (if p x then f x else x) ∷ update_by p f xs

  abbrev pub All {κ} : (A → Type κ) → List A → Type κ
  All P [] = Unit
  All P (x ∷ xs) = P x × All P xs

  pub length-append : (xs ys : List A) → length (xs ++ ys) ≡ length xs + length ys
  length-append [] ys = omega arith
  length-append (x ∷ xs) ys = omega (arith, length-append xs ys)

  pub ++-assoc : (xs ys zs : List A) → (xs ++ ys) ++ zs ≡ xs ++ (ys ++ zs)
  ++-assoc [] ys zs = refl
  ++-assoc (x ∷ xs) ys zs = ap (λ l. x ∷ l) (++-assoc xs ys zs)

  pub ++-nil : (xs : List A) → xs ++ [] ≡ xs
  ++-nil [] = refl
  ++-nil (x ∷ xs) = ap (λ l. x ∷ l) (++-nil xs)

  pub length-update_by :
      (p : A → Bool) (f : A → A) (xs : List A) → length (update_by p f xs) ≡ length xs
  length-update_by p f [] = refl
  length-update_by p f (x ∷ xs) = omega (arith, length-update_by p f xs)

  pub length-filter_by : (p : A → Bool) (xs : List A) → length (filter_by p xs) ≤ length xs
  length-filter_by p [] = omega arith
  length-filter_by p (x ∷ xs) = ground (arith, length-filter_by p xs)

  pub any_by-append :
      (p : A → Bool) (xs ys : List A) → any_by p (xs ++ ys) ≡ (any_by p xs || any_by p ys)
  any_by-append p [] ys = refl
  any_by-append p (x ∷ xs) ys = ground (arith, any_by-append p xs ys)

  pub filter_by-append :
      (p : A → Bool) (xs ys : List A) → filter_by p (xs ++ ys) ≡ filter_by p xs ++ filter_by p ys
  filter_by-append p [] ys = refl
  filter_by-append p (x ∷ xs) ys = ground (arith, filter_by-append p xs ys)

  pub count_by-append :
      (p : A → Bool) (xs ys : List A) → count_by p (xs ++ ys) ≡ count_by p xs + count_by p ys
  count_by-append p [] ys = omega arith
  count_by-append p (x ∷ xs) ys = ground (arith, count_by-append p xs ys)

  pub all_by-filter_by : (p : A → Bool) (xs : List A) → all_by p (filter_by p xs) ≡ true
  all_by-filter_by p [] = refl
  all_by-filter_by p (x ∷ xs) = ground (arith, all_by-filter_by p xs)

module _ {ℓ} {A : Type ℓ} (eq : A → A → Bool) where
  -- `x in xs`
  abbrev pub elem : A → List A → Bool
  elem a [] = false
  elem a (x ∷ xs) = eq a x || elem a xs

  abbrev pub remove_all : A → List A → List A
  remove_all a [] = []
  remove_all a (x ∷ xs) = let rest = remove_all a xs in if eq a x then rest else x ∷ rest

  -- `tuple(dict.fromkeys(xs))`: each value once, in the order of first occurrence
  unfoldable pub from_keys : List A → List A
  from_keys [] = []
  from_keys (x ∷ xs) = x ∷ remove_all x (from_keys xs)

  -- no value twice
  abbrev pub is_unique : List A → Bool
  is_unique [] = true
  is_unique (x ∷ xs) = not (elem x xs) && is_unique xs

  module _ (eq_lem : (a b : A) → (eq a b ≡ true) ↔ (a ≡ b)) where
    pub elem-remove_all :
        (a b : A) (xs : List A) → elem a (remove_all b xs) ≡ (not (eq b a) && elem a xs)
    elem-remove_all a b [] = ground arith
    elem-remove_all a b (x ∷ xs) =
        ground (arith, elem-remove_all a b xs, eq_lem a x, eq_lem b x, eq_lem b a)

    pub elem-from_keys : (a : A) (xs : List A) → elem a (from_keys xs) ≡ elem a xs
    unfolding from_keys
    elem-from_keys a [] = refl
    elem-from_keys a (x ∷ xs) =
        ground
          (arith, elem-remove_all a x (from_keys xs), elem-from_keys a xs, eq_lem x a, eq_lem a x)

    is_unique-remove_all :
        (b : A) (xs : List A) → is_unique xs ≡ true → is_unique (remove_all b xs) ≡ true
    is_unique-remove_all b [] h = refl
    is_unique-remove_all b (x ∷ xs) h =
        ground (arith, is_unique-remove_all b xs, elem-remove_all x b xs)

    pub from_keys-is_unique : (xs : List A) → is_unique (from_keys xs) ≡ true
    unfolding from_keys
    from_keys-is_unique [] = refl
    from_keys-is_unique (x ∷ xs) = ground (
      arith,
      elem-remove_all x x (from_keys xs),
      eq_lem x x,
      is_unique-remove_all x (from_keys xs) (from_keys-is_unique xs),
    )

module _ {ℓ} {A : Type ℓ} where
  abbrev pub is_nil : List A → Bool
  is_nil [] = true
  is_nil (x ∷ xs) = false

  pub All-map : {P Q : A → Type 0} (xs : List A) → ((x : A) → P x → Q x) → All P xs → All Q xs
  All-map [] f h = tt
  All-map (x ∷ xs) f h = (f x h.0, All-map xs f h.1)
