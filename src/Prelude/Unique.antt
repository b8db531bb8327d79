-- ===== src/Prelude/Unique.antt =====
-- Lists without a repeated value, as a `set` of seen keys keeps them.
use mathlib.Core.Path.{◌≡◌, refl, sym}
use mathlib.Core.Bool.{Bool, true, false, ◌||◌}
use mathlib.Core.Logic.{◌↔◌}
use mathlib.Core.List.{List, [], ◌∷◌, ◌++◌}
use native.Mathlib.Omega.{arith}
use voucher_management_deskt.Prelude.Lists.{elem, is_unique}

module _ {ℓ} {A : Type ℓ} (eq : A → A → Bool) where
  pub elem-append : (a : A) (xs ys : List A) → elem eq a (xs ++ ys) ≡ (elem eq a xs || elem eq a ys)
  elem-append a [] ys = refl
  elem-append a (x ∷ xs) ys = ground (arith, elem-append a xs ys)

  pub is_unique-append_left :
      (xs ys : List A) → is_unique eq (xs ++ ys) ≡ true → is_unique eq xs ≡ true
  is_unique-append_left [] ys h = refl
  is_unique-append_left (x ∷ xs) ys h =
      ground (arith, is_unique-append_left xs ys, elem-append x xs ys)

  module _ (eq_lem : (a b : A) → (eq a b ≡ true) ↔ (a ≡ b)) where
    sides : (a b : A) → eq a b ≡ true → eq b a ≡ true
    sides a b h = (eq_lem b a).1 (sym ((eq_lem a b).0 h))

    pub is_unique-snoc :
        (a : A) (xs : List A)
        → is_unique eq xs ≡ true
        → elem eq a xs ≡ false
        → is_unique eq (xs ++ a ∷ []) ≡ true
    is_unique-snoc a [] u h = refl
    is_unique-snoc a (x ∷ xs) u h =
        ground (arith, is_unique-snoc a xs, elem-append x xs (a ∷ []), sides x a)

    pub is_unique-middle :
        (a : A) (xs ys : List A) → is_unique eq (xs ++ a ∷ ys) ≡ true → elem eq a xs ≡ false
    is_unique-middle a [] ys h = refl
    is_unique-middle a (x ∷ xs) ys h =
        ground (arith, is_unique-middle a xs ys, elem-append x xs (a ∷ ys), sides a x)
