-- ===== src/Recovery/Marker.antt =====
-- The marker files of uncertain_create_recovery.py and create_reporting_recovery.py, and what
-- `json.loads` has made of their text.
use voucher_management_deskt.Prelude.{
  Bool, Option, List, ℕ, some, String, false, from_keys, eqb, true, none, strip, if◌then◌else◌, [],
  ◌==◌, ◌∷◌, leb, is_empty, map, length,
}
use voucher_management_deskt.Prelude.Options.{◌>>=◌}
use mathlib.Core.Option
use voucher_management_deskt.Json.{
  Json, Items, Python, text, num, bool, arr, pos, nil, truthy_json, cons,
}

pub data Marker : Type 0 where
  missing_file unreadable : Marker
  holds : Json → Marker

-- `marker.exists()`
abbrev pub exists : Marker → Bool
exists missing_file = false
exists _ = true

-- `payload.get("format") == 1`, which True satisfies too
abbrev pub is_format_one : Option Json → Bool
is_format_one (some (num (pos n))) = eqb n 1
is_format_one (some (bool b)) = b
is_format_one _ = false

-- `type(value) is int and value >= least`
abbrev pub int_from : ℕ → Option Json → Option ℕ
int_from least (some (num (pos n))) = if leb least n then some n else none
int_from least _ = none

-- `type(value) is bool`
abbrev pub bool_from : Option Json → Option Bool
bool_from (some (bool b)) = some b
bool_from _ = none

-- a list of texts, none of them blank
abbrev pub nonblank : Items → Option (List String)
nonblank nil = some []
nonblank (cons (text s) xs) =
    (let rest = nonblank xs in if is_empty (strip s) then none else Option.map (λ l. s ∷ l) rest)
nonblank (cons _ xs) = none

-- the value is a list of such texts, and no two are equal when stripped: the stripped ones
abbrev pub distinct_ids : List String → Option (List String)
distinct_ids ids =
    (let kept = from_keys ◌==◌ (map strip ids) in
      if eqb (length kept) (length ids) then some kept else none)

unfoldable pub ids_from : Option Json → Option (List String)
ids_from (some (arr xs)) = nonblank xs >>= distinct_ids
ids_from _ = none

module _ (py : Python) where
  -- `str(value or "").strip()`
  unfoldable pub text_from : Option Json → String
  text_from none = ""
  text_from (some (text s)) = strip s
  text_from (some v) = if truthy_json v then strip (py.str_of v) else ""

-- `tuple(...)` of texts, as the list that `json.dump` writes
abbrev pub texts : List String → Items
texts [] = nil
texts (s ∷ ss) = cons (text s) (texts ss)
