-- ===== src/Prelude/Text/Strip.antt =====
-- `str.strip` twice is `str.strip`.
use Prim.Native.Char.{Char, code}
use Prim.Native.String.{String}
use mathlib.Core.Path.{◌≡◌, refl, ap, ◌∙◌}
use mathlib.Core.Bool.{false}
use native.Mathlib.Omega.{arith}
use voucher_management_deskt.Prelude.Text.{codes, is_space, lstrip, rstrip, strip}
use voucher_management_deskt.Prelude.Lists.{any_by}

rstrip-rstrip : (s : String) → rstrip (rstrip s) ≡ rstrip s
unfolding rstrip
rstrip-rstrip String.[] = refl
rstrip-rstrip (String.◌∷◌ c s) = ground (arith, rstrip-rstrip s)

lstrip-kept :
    (c : Char) (s : String)
    → is_space (code c) ≡ false
    → lstrip (rstrip (String.◌∷◌ c s)) ≡ rstrip (String.◌∷◌ c s)
unfolding lstrip rstrip
lstrip-kept c s h = ground arith

pub strip-strip : (s : String) → strip (strip s) ≡ strip s
unfolding strip lstrip
strip-strip String.[] = refl
strip-strip (String.◌∷◌ c s) =
    ground (arith, strip-strip s, lstrip-kept c s, rstrip-rstrip (String.◌∷◌ c s))

lstrip-solid : (s : String) → any_by is_space (codes s) ≡ false → lstrip s ≡ s
unfolding lstrip
lstrip-solid String.[] h = refl
lstrip-solid (String.◌∷◌ c s) h = ground arith

rstrip-solid : (s : String) → any_by is_space (codes s) ≡ false → rstrip s ≡ s
unfolding rstrip
rstrip-solid String.[] h = refl
rstrip-solid (String.◌∷◌ c s) h = ground (arith, rstrip-solid s)

-- a text without a space is not shortened
pub strip-solid : (s : String) → any_by is_space (codes s) ≡ false → strip s ≡ s
unfolding strip
strip-solid s h = ap rstrip (lstrip-solid s h) ∙ rstrip-solid s h
