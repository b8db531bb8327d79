-- ===== src/Json.antt =====
-- The JSON values that the client (unifi_api.py) and the markers of recovery (uncertain_create_recovery.py,
-- create_reporting_recovery.py) read, and what Python makes of them. A number with a fraction is not
-- among them, though `json.loads` would read one: what is stated of an answer does not speak of these.
use voucher_management_deskt.Prelude.{
  ℕ, String, Option, List, Bool, none, false, some, [], strip, ◌∷◌, true, coalesce, bit, not,
  if◌then◌else◌, ◌==◌, is_empty, zero,
}

pub data ℤ : Type 0 where
  pos negsuc : ℕ → ℤ

mutual
  pub data Json : Type 0 where
    null : Json
    bool : Bool → Json
    num : ℤ → Json
    text : String → Json
    arr : Items → Json
    obj : Fields → Json

  pub data Items : Type 0 where
    nil : Items
    cons : Json → Items → Items

  pub data Fields : Type 0 where
    end : Fields
    field : String → Json → Fields → Fields

-- The calls of Python on these values, as a parameter where they are not plain.
pub record Python : Type 0 where
  -- `int(s)` of a text; `none` where it raises ValueError
  pub int_of_text : String → Option ℤ
  -- `str(v)` of a value that is no text
  pub str_of : Json → String
  -- `int(datetime.fromisoformat(s).timestamp())`, in UTC where no offset is given; `none` where it raises
  pub epoch_of : String → Option ℕ

-- `fields.get(key)`; `json.loads` keeps the last of two equal keys
unfoldable pub find : String → Fields → Option Json
find k end = none
find k (field j v fs) = coalesce (find k fs) (if j == k then some v else none)

abbrev pub items : Items → List Json
items nil = []
items (cons v vs) = v ∷ items vs

-- `bool(v)`
abbrev pub truthy_json : Json → Bool
truthy_json null = false
truthy_json (bool b) = b
truthy_json (num (pos zero)) = false
truthy_json (num _) = true
truthy_json (text s) = not (is_empty s)
truthy_json (arr nil) = false
truthy_json (arr _) = true
truthy_json (obj end) = false
truthy_json (obj _) = true

module _ (py : Python) where
  -- `int(v)`; `none` is TypeError or ValueError
  unfoldable pub int_of : Json → Option ℤ
  int_of (bool b) = some (pos (bit b))
  int_of (num z) = some z
  int_of (text s) = py.int_of_text s
  int_of _ = none

  -- `str(v).strip()`
  unfoldable pub stripped : Json → String
  stripped (text s) = strip s
  stripped v = strip (py.str_of v)
