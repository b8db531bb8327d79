-- ===== src/Review/Queries.antt =====
-- What the three queries share: the functions of SQLite and `datetime` as parameters, the JOIN with
-- the controllers, and ORDER BY.
use voucher_management_deskt.Prelude.{
  Option, String, Bool, find_by, is_some, some, ℕ, List, if◌then◌else◌, true, eqb, any_by, ◌∷◌,
  is_empty, ◌≡◌, [], none, ◌||◌, ◌∙◌, ap, arith, refl,
}
use mathlib.Core.Option
use voucher_management_deskt.Database.Rows.{Db, Voucher, Controller}

pub record Clock : Type 0 where
  -- `(_normalize_now(now) - timedelta(days=days)).isoformat()`; `none` where it raises
  pub cutoff : String → ℕ → Option String
  -- `<=` on TEXT
  pub text_le : String → String → Bool
  -- `julianday(a) IS NOT NULL`
  pub has_julianday : String → Bool
  -- `julianday(a) <= julianday(b)`
  pub julian_le : String → String → Bool

-- `AND v.controller_id=?`, where one is given
abbrev pub of_controller : Option ℕ → Voucher → Bool
of_controller none v = true
of_controller (some c) v = eqb v.controller_id c

-- `JOIN controllers AS c ON c.id=v.controller_id`: the name, or no row
abbrev pub joined_name : Db → Voucher → Option String
joined_name db v =
    Option.map (λ (c : Controller). c.name)
      (find_by (λ (c : Controller). eqb c.id v.controller_id) db.controllers)

abbrev pub is_joined : Db → Voucher → Bool
is_joined db v = is_some (joined_name db v)

-- `str(row["controller_name"] or "Controller")`
abbrev pub controller_name : Option String → String
controller_name none = "Controller"
controller_name (some n) = if is_empty n then "Controller" else n

module _ {A : Type 0} (before : A → A → Bool) where
  abbrev insert : A → List A → List A
  insert x [] = x ∷ []
  insert x (y ∷ ys) = let rest = insert x ys in if before y x then y ∷ rest else x ∷ y ∷ ys

  -- ORDER BY; rows that are equal in its terms stay in the order of their rowids
  unfoldable pub sort_by : List A → List A
  sort_by [] = []
  sort_by (x ∷ xs) = insert x (sort_by xs)

  any_by-insert :
      (p : A → Bool) (x : A) (xs : List A) → any_by p (insert x xs) ≡ (p x || any_by p xs)
  any_by-insert p x [] = refl
  any_by-insert p x (y ∷ ys) = ground (arith, any_by-insert p x ys)

  -- Sorting keeps the rows.
  pub any_by-sort_by : (p : A → Bool) (xs : List A) → any_by p (sort_by xs) ≡ any_by p xs
  unfolding sort_by
  any_by-sort_by p [] = refl
  any_by-sort_by p (x ∷ xs) =
      any_by-insert p x (sort_by xs) ∙ ap (λ b. p x || b) (any_by-sort_by p xs)
