-- ===== src/Prelude/Clean.antt =====
-- Cleaned ids are clean: to clean or to deduplicate them again changes nothing.
use Prim.Native.String.{String}
use mathlib.Core.Path.{◌≡◌, refl, ap, ◌∙◌}
use mathlib.Core.Bool.{Bool, true, false, not, ◌&&◌}
use mathlib.Core.List.{List, [], ◌∷◌, map}
use native.Mathlib.Omega.{arith}
use text.Mathlib.Text.{◌==◌}
use text.Mathlib.TextEquality.{eq_iff}
use voucher_management_deskt.Prelude.Lists.{
  elem, is_unique, remove_all, from_keys, from_keys-is_unique, all_by, filter_by,
}
use voucher_management_deskt.Prelude.Text.{clean_ids, strip, is_empty}
use voucher_management_deskt.Prelude.Text.Strip.{strip-strip}

module _ {ℓ} {A : Type ℓ} (eq : A → A → Bool) where
  remove_all-absent : (a : A) (xs : List A) → elem eq a xs ≡ false → remove_all eq a xs ≡ xs
  remove_all-absent a [] h = refl
  remove_all-absent a (x ∷ xs) h = ground (arith, remove_all-absent a xs)

  pub from_keys_unique : (xs : List A) → is_unique eq xs ≡ true → from_keys eq xs ≡ xs
  unfolding from_keys
  from_keys_unique [] h = refl
  from_keys_unique (x ∷ xs) h = ground (arith, from_keys_unique xs, remove_all-absent x xs)

  all_by-remove_all :
      (p : A → Bool) (a : A) (xs : List A)
      → all_by p xs ≡ true
      → all_by p (remove_all eq a xs) ≡ true
  all_by-remove_all p a [] h = refl
  all_by-remove_all p a (x ∷ xs) h = ground (arith, all_by-remove_all p a xs)

  pub all_by-from_keys :
      (p : A → Bool) (xs : List A) → all_by p xs ≡ true → all_by p (from_keys eq xs) ≡ true
  unfolding from_keys
  all_by-from_keys p [] h = refl
  all_by-from_keys p (x ∷ xs) h =
      ground (arith, all_by-from_keys p xs, all_by-remove_all p x (from_keys eq xs))

-- a text that is stripped and not empty
abbrev pub is_clean : String → Bool
is_clean s = (strip s == s) && not (is_empty s)

stripped_are_clean :
    (xs : List String) → all_by is_clean (filter_by (λ v. not (is_empty v)) (map strip xs)) ≡ true
stripped_are_clean [] = refl
stripped_are_clean (x ∷ xs) =
    ground (arith, stripped_are_clean xs, strip-strip x, eq_iff (strip (strip x)) (strip x))

pub clean_ids-are_clean : (xs : List String) → all_by is_clean (clean_ids xs) ≡ true
unfolding clean_ids
clean_ids-are_clean xs = all_by-from_keys ◌==◌ is_clean _ (stripped_are_clean xs)

pub clean_ids-is_unique : (xs : List String) → is_unique ◌==◌ (clean_ids xs) ≡ true
unfolding clean_ids
clean_ids-is_unique xs =
    from_keys-is_unique ◌==◌ eq_iff (filter_by (λ v. not (is_empty v)) (map strip xs))

pub map-strip : (xs : List String) → all_by is_clean xs ≡ true → map strip xs ≡ xs
map-strip [] h = refl
map-strip (x ∷ xs) h = ground (arith, map-strip xs, eq_iff (strip x) x)

filter-clean :
    (xs : List String) → all_by is_clean xs ≡ true → filter_by (λ v. not (is_empty v)) xs ≡ xs
filter-clean [] h = refl
filter-clean (x ∷ xs) h = ground (arith, filter-clean xs)

pub clean_ids-clean_ids : (xs : List String) → clean_ids (clean_ids xs) ≡ clean_ids xs
unfolding clean_ids
clean_ids-clean_ids xs =
    let ids = clean_ids xs in
    ap (λ l. from_keys ◌==◌ (filter_by (λ v. not (is_empty v)) l))
      (map-strip ids (clean_ids-are_clean xs))
    ∙ ap (from_keys ◌==◌) (filter-clean ids (clean_ids-are_clean xs))
    ∙ from_keys_unique ◌==◌ ids (clean_ids-is_unique xs)
