-- ===== src/Prelude/Text.antt =====
-- The methods of Python's `str` that the program calls, over the native text.
pub mod Strip
use Prim.Native.Nat.{ℕ, ◌-◌}
use Prim.Native.Char.{code}
use Prim.Native.String.{String}
use mathlib.Core.Bool.{Bool, true, false, not, ◌&&◌, ◌||◌}
use mathlib.Core.Option.{Option, none, some}
use mathlib.Core.List.{List, map, [], ◌∷◌, ◌++◌}
use text.Mathlib.Text.{◌==◌}
use voucher_management_deskt.Prelude.Tests.{leb, eqb, if◌then◌else◌}
use voucher_management_deskt.Prelude.Lists.{filter_by, from_keys}

-- `c.isspace()`, which `str.strip` uses
unfoldable pub is_space : ℕ → Bool
is_space c =
    leb 9 c && leb c 13
    || leb 28 c && leb c 32
    || eqb c 133
    || eqb c 160
    || eqb c 5760
    || leb 8192 c && leb c 8202
    || eqb c 8232
    || eqb c 8233
    || eqb c 8239
    || eqb c 8287
    || eqb c 12288

abbrev pub is_empty : String → Bool
is_empty String.[] = true
is_empty (String.◌∷◌ c s) = false

pub lstrip : String → String
lstrip String.[] = String.[]
lstrip (String.◌∷◌ c s) = let rest = lstrip s in if is_space (code c) then rest else String.◌∷◌ c s

pub rstrip : String → String
rstrip String.[] = String.[]
rstrip (String.◌∷◌ c s) =
    let rest = rstrip s in
    if is_empty rest && is_space (code c) then String.[] else String.◌∷◌ c rest

-- `s.strip()`
unfoldable pub strip : String → String
unfolding is_space lstrip rstrip
strip s = rstrip (lstrip s)

-- `s.replace("-", "")`
unfoldable pub without_dashes : String → String
without_dashes String.[] = String.[]
without_dashes (String.◌∷◌ c s) =
    let rest = without_dashes s in if eqb (code c) b'-' then rest else String.◌∷◌ c rest

-- `str(value or "").strip()` on a column that may be NULL
abbrev pub or_empty : Option String → String
or_empty none = ""
or_empty (some s) = s

-- `tuple(dict.fromkeys(str(v).strip() for v in values if str(v).strip()))`
unfoldable pub clean_ids : List String → List String
unfolding from_keys
clean_ids values = from_keys ◌==◌ (filter_by (λ v. not (is_empty v)) (map strip values))

-- the code points of a text
abbrev pub codes : String → List ℕ
codes String.[] = []
codes (String.◌∷◌ c s) = code c ∷ codes s

-- `c.upper()` for every character whose upper case holds an ASCII letter, and `c` for the others:
-- exact wherever the result is compared with an ASCII word, as all its uses are.
pub upper_code : ℕ → List ℕ
upper_code c =
    if leb b'a' c && leb c b'z'
    then (c - 32) ∷ []
    else if eqb c 0xDF
    then b'S' ∷ b'S' ∷ []
    else if eqb c 0x131
    then b'I' ∷ []
    else if eqb c 0x17F
    then b'S' ∷ []
    else if eqb c 0xFB00
    then b'F' ∷ b'F' ∷ []
    else if eqb c 0xFB01
    then b'F' ∷ b'I' ∷ []
    else if eqb c 0xFB02
    then b'F' ∷ b'L' ∷ []
    else if eqb c 0xFB03
    then b'F' ∷ b'F' ∷ b'I' ∷ []
    else if eqb c 0xFB04
    then b'F' ∷ b'F' ∷ b'L' ∷ []
    else if eqb c 0xFB05 || eqb c 0xFB06
    then b'S' ∷ b'T' ∷ []
    else c ∷ []

unfoldable pub upper : List ℕ → List ℕ
unfolding upper_code
upper [] = []
upper (c ∷ cs) = upper_code c ++ upper cs

abbrev pub codes_eqb : List ℕ → List ℕ → Bool
codes_eqb [] [] = true
codes_eqb (a ∷ s) (b ∷ t) = eqb a b && codes_eqb s t
codes_eqb _ _ = false
