-- ===== src/Prelude/Dicts.antt =====
-- A Python dict with text keys, in insertion order: a key keeps its place and takes the new value.
use Prim.Native.String.{String}
use mathlib.Core.Path.{◌≡◌}
use mathlib.Core.Bool.{Bool, ◌||◌}
use mathlib.Core.Option.{Option, none, some}
use mathlib.Core.List.{List, [], ◌∷◌}
use native.Mathlib.Omega.{arith}
use text.Mathlib.Text.{◌==◌}
use text.Mathlib.TextEquality.{eq_iff}
use voucher_management_deskt.Prelude.Tests.{if◌then◌else◌}
use voucher_management_deskt.Prelude.Lists.{any_by}

abbrev pub Dict {ℓ} : Type ℓ → Type ℓ
Dict V = List (String × V)

module _ {ℓ} {V : Type ℓ} where
  -- `d[k] = v`
  abbrev pub put : String → V → Dict V → Dict V
  put k v [] = (k, v) ∷ []
  put k v (e ∷ d) = if e.0 == k then (k, v) ∷ d else e ∷ put k v d

  -- `d.get(k)`
  abbrev pub get : String → Dict V → Option V
  get k [] = none
  get k (e ∷ d) = let rest = get k d in if e.0 == k then some e.1 else rest

  -- `k in d`
  abbrev pub holds : String → Dict V → Bool
  holds k d = any_by (λ (e : String × V). e.0 == k) d

  pub holds-put : (j k : String) (v : V) (d : Dict V) → holds j (put k v d) ≡ (k == j || holds j d)
  holds-put j k v [] = ground arith
  holds-put j k v (e ∷ d) =
      ground (arith, holds-put j k v d, eq_iff e.0 k, eq_iff e.0 j, eq_iff k j)
