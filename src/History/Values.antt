-- ===== src/History/Values.antt =====
-- What history.py does with the JSON values of its rows: `str(value or "")`, `==`, the comparison of
-- `_canonical_print_records`, and what can be in a set.
use voucher_management_deskt.Prelude.{
  String, Option, List, ℕ, Bool, some, coalesce, eqb, suc, ◌∷◌, bit, ◌==◌, false, if◌then◌else◌,
  none, [], true, bool_eqb, not, ◌&&◌, is_some,
}
use voucher_management_deskt.Json.{
  Json, Items, Fields, Python, find, truthy_json, ℤ, pos, negsuc, bool, num, null, nil, field, text,
  arr, end, cons, obj, null,
}

-- `str(value or "")` on `item.get(key)`
unfoldable pub text_or_empty : Python → Option Json → String
text_or_empty py none = ""
text_or_empty py (some (text s)) = s
text_or_empty py (some v) = if truthy_json v then py.str_of v else ""

-- `hash(value)` does not raise TypeError
unfoldable pub is_hashable : Option Json → Bool
is_hashable (some (arr _)) = false
is_hashable (some (obj _)) = false
is_hashable _ = true

-- a number, as `==` reads it: `True == 1`
abbrev number : Bool → ℤ
number b = pos (bit b)

abbrev int_eqb : ℤ → ℤ → Bool
int_eqb (pos m) (pos n) = eqb m n
int_eqb (negsuc m) (negsuc n) = eqb m n
int_eqb _ _ = false

abbrev pub field_count : Fields → ℕ
field_count end = 0
field_count (field _ _ fs) = suc (field_count fs)

-- `item.get(key)`
abbrev or_null : Option Json → Json
or_null none = null
or_null (some v) = v

-- `v == w` of Python, or with `strict` the equality of the texts that `json.dumps` writes with sorted
-- keys, which tells True from 1. The keys of an object are distinct, as `json.loads` makes them.
unfoldable mutual
  pub json_eqb : Bool → Json → Json → Bool
  json_eqb strict null null = true
  json_eqb strict (bool a) (bool b) = bool_eqb a b
  json_eqb strict (bool a) (num z) = not strict && int_eqb (number a) z
  json_eqb strict (num z) (bool b) = not strict && int_eqb z (number b)
  json_eqb strict (num y) (num z) = int_eqb y z
  json_eqb strict (text s) (text t) = s == t
  json_eqb strict (arr vs) (arr ws) = items_eqb strict vs ws
  json_eqb strict (obj fs) (obj gs) =
      eqb (field_count fs) (field_count gs) && fields_within strict fs gs
  json_eqb strict _ _ = false

  pub items_eqb : Bool → Items → Items → Bool
  items_eqb strict nil nil = true
  items_eqb strict (cons v vs) (cons w ws) = json_eqb strict v w && items_eqb strict vs ws
  items_eqb strict _ _ = false

  -- every field is in `gs`, with an equal value
  pub fields_within : Bool → Fields → Fields → Bool
  fields_within strict end gs = true
  fields_within strict (field k v fs) gs =
      is_some (find k gs) && json_eqb strict v (or_null (find k gs)) && fields_within strict fs gs

-- `item.get(key) == other.get(key)`; a missing key is None
unfoldable pub get_eqb : Option Json → Option Json → Bool
get_eqb v w = json_eqb false (or_null v) (or_null w)

-- `item.get(key) == text`
unfoldable pub is_text : String → Option Json → Bool
is_text s (some (text t)) = t == s
is_text s _ = false

-- `item.get("event", "generate")`
unfoldable pub event_of : Fields → Option Json
event_of row = coalesce (find "event" row) (some (text "generate"))

-- a list of rows as the value that `json.dump` writes
unfoldable pub rows_json : List Fields → Items
rows_json [] = nil
rows_json (r ∷ rs) = cons (obj r) (rows_json rs)
