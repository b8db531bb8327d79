-- ===== src/Workflows/Params.antt =====
-- `validate_create_params` of workflows.py, and what the client makes of its result.
pub mod Accepted
mod Tests
use voucher_management_deskt.Prelude.Options.{◌>>=◌}
use voucher_management_deskt.Prelude.{
  String, Bool, Option, ℕ, none, if◌then◌else◌, some, is_empty, not, strip, ◌==◌, leb, ◌&&◌,
}
use voucher_management_deskt.Workflows.Remote.{CreateParams}
use voucher_management_deskt.Json.{ℤ, negsuc, pos}

-- a value of the dialog
pub data Entry : Type 0 where
  missing : Entry
  boolean : Bool → Entry
  whole : ℤ → Entry
  written : String → Entry

-- `int(s)` and `str(v)`, as parameters
pub record Conversions : Type 0 where
  pub int_of_text : String → Option ℤ
  pub str_of : Entry → String

-- A result is `none` where an exception, ValueError or TypeError, is raised.

-- a number of the range, which has no negative one
in_range : (least : ℕ) → Option ℕ → ℤ → Option ℕ
in_range least most (negsuc n) = none
in_range least none (pos n) = if leb least n then some n else none
in_range least (some most) (pos n) = if leb least n && leb n most then some n else none

-- `units[str(expire_unit)]`
unit_of : String → Option ℕ
unit_of s =
    if s == "Minuti"
    then some 1
    else if s == "Ore"
    then some 60
    else if s == "Giorni"
    then some 1440
    else none

module _ (py : Conversions) where
  as_text : Entry → String
  as_text (written s) = s
  as_text e = py.str_of e

  required_int : Entry → Option ℤ
  required_int missing = none
  required_int (boolean b) = none
  required_int (whole z) = some z
  required_int (written s) = py.int_of_text s

  -- `int(text)`, and the range
  abbrev positive_text : ℕ → String → Option (Option ℕ)
  positive_text most s =
      if is_empty s
      then some none
      else (do z ← py.int_of_text s; n ← in_range 1 (some most) z; some (some n))

  optional_positive_int : ℕ → Entry → Option (Option ℕ)
  optional_positive_int most missing = some none
  optional_positive_int most (boolean b) = none
  optional_positive_int most (whole z) = positive_text most (strip (py.str_of (whole z)))
  optional_positive_int most (written s) = positive_text most (strip s)

  quota_of : String → Entry → Option ℕ
  unfolding in_range required_int
  quota_of mode quota =
      if mode == "Monouso"
      then some 1
      else if mode == "Multiuso illimitato"
      then some 0
      else if mode == "Multiuso"
      then required_int quota >>= in_range 2 (some 999)
      else none

  -- the data limit and the two rates
  limits_of : (data_mb down_mbps up_mbps : Entry) → Option (Option ℕ × Option ℕ × Option ℕ)
  limits_of data_mb down_mbps up_mbps = do
    data_limit ← optional_positive_int 1048576 data_mb
    download_limit ← optional_positive_int 100 down_mbps
    upload_limit ← optional_positive_int 100 up_mbps
    some (data_limit, download_limit, upload_limit)

  -- without `is_nominal`, which the client does not get
  pub validate_create_params :
      (recipient quantity mode quota expire_number expire_unit data_mb down_mbps up_mbps : Entry)
      → Option CreateParams
  validate_create_params recipient quantity mode quota expire_number expire_unit data_mb down_mbps
        up_mbps =
      if is_empty (strip (as_text recipient)) then none else (do
        qty ← required_int quantity >>= in_range 1 (some 50)
        expiration ← required_int expire_number >>= in_range 1 none
        normalized_quota ← quota_of (as_text mode) quota
        expiration_unit ← unit_of (as_text expire_unit)
        limits ← limits_of data_mb down_mbps up_mbps
        some (record {
          recipient = strip (as_text recipient);
          quantity = qty;
          expire_number = expiration;
          expire_unit = expiration_unit;
          quota = normalized_quota;
          data_mb = limits.0;
          down_mbps = limits.1;
          up_mbps = limits.2;
        }))
