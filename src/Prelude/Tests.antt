-- ===== src/Prelude/Tests.antt =====
-- Boolean tests on the native numbers, the conditional, and splits on computed values.
use Prim.Native.Nat.{ℕ, ◌≤◌, compare, Ordering}
use Prim.Native.String.{String}
use mathlib.Core.Path.{◌≡◌, refl}
use mathlib.Core.Logic.{◌⊎◌, inl, inr, ◌↔◌}
use mathlib.Core.Bool.{Bool, true, false, ◌||◌, ◌&&◌}
use mathlib.Core.Option.{Option, none, some}
use native.Mathlib.Omega.{arith}
use text.Mathlib.Text.{◌==◌}

abbrev pub ltb : ℕ → ℕ → Bool
ltb a b = elim (compare a b) [ Ordering.lt ↦ true | _ ↦ false ]

abbrev pub leb : ℕ → ℕ → Bool
leb a b = elim (compare a b) [ Ordering.gt ↦ false | _ ↦ true ]

-- `==` is the test of texts
abbrev pub eqb : ℕ → ℕ → Bool
eqb a b = elim (compare a b) [ Ordering.eq ↦ true | _ ↦ false ]

infix 1 if◌then◌else◌
abbrev pub if◌then◌else◌ {ℓ} : {A : Type ℓ} → Bool → A → A → A
if true then x else y = x
if false then x else y = y

pub leb→le : (a b : ℕ) → leb a b ≡ true → a ≤ b
leb→le a b h = ground arith

pub le→leb : (a b : ℕ) → a ≤ b → leb a b ≡ true
le→leb a b h = ground arith

pub eqb_iff : (a b : ℕ) → (eqb a b ≡ true) ↔ (a ≡ b)
eqb_iff a b = ground arith

pub eqb_refl : (a : ℕ) → eqb a a ≡ true
eqb_refl a = ground arith

pub Bool-cases : (b : Bool) → (b ≡ true) ⊎ (b ≡ false)
Bool-cases true = inl refl
Bool-cases false = inr refl

pub Option-cases {ℓ} : {A : Type ℓ} (o : Option A) → (o ≡ none) ⊎ ((a : A) × (o ≡ some a))
Option-cases none = inl refl
Option-cases (some a) = inr (a, refl)

-- `x is not None`
abbrev pub is_some {ℓ} : {A : Type ℓ} → Option A → Bool
is_some none = false
is_some (some a) = true

-- `bool(x)` on a text that may be `None`
abbrev pub opt_eqb : Option ℕ → Option ℕ → Bool
opt_eqb none none = true
opt_eqb (some a) (some b) = eqb a b
opt_eqb _ _ = false

abbrev pub bool_eqb : Bool → Bool → Bool
bool_eqb true b = b
bool_eqb false true = false
bool_eqb false false = true

abbrev pub opt_bool_eqb : Option Bool → Option Bool → Bool
opt_bool_eqb none none = true
opt_bool_eqb (some a) (some b) = bool_eqb a b
opt_bool_eqb _ _ = false

abbrev pub opt_text_eqb : Option String → Option String → Bool
opt_text_eqb none none = true
opt_text_eqb (some a) (some b) = a == b
opt_text_eqb _ _ = false

-- `COALESCE(a, b)`
abbrev pub coalesce {ℓ} : {A : Type ℓ} → Option A → Option A → Option A
coalesce none b = b
coalesce (some a) b = some a

-- 1 for true, as `sum(...)` counts Booleans
abbrev pub bit : Bool → ℕ
bit true = 1
bit false = 0

pub or_true_right : (a b : Bool) → b ≡ true → (a || b) ≡ true
or_true_right a b h = ground arith

pub and_intro : {a b : Bool} → a ≡ true → b ≡ true → a && b ≡ true
and_intro h k = ground arith
