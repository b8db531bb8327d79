-- ===== src/Calendar.antt =====
-- The calls of Python's `datetime` that the program makes on its timestamps, as a parameter: the
-- program stores and compares the texts that they return.
use Prim.Native.Char.{code}
use voucher_management_deskt.Database.Action.{
  Result, err, value_error, missing_timestamp, ok, bad_timestamp,
}
use voucher_management_deskt.Prelude.{
  String, ℕ, Option, if◌then◌else◌, is_empty, eqb, none, strip, ◌≡◌, some, false,
}

pub record Calendar : Type 0 where
  -- `datetime.fromisoformat(s)`, in UTC where no offset is given, then `astimezone(utc).isoformat()`;
  -- `none` where it raises ValueError
  pub to_utc : String → Option String
  -- `datetime.fromtimestamp(seconds, tz=timezone.utc).isoformat()`
  pub from_epoch : ℕ → String
  -- an ISO text is not empty
  pub from_epoch_nonempty : (n : ℕ) → is_empty (from_epoch n) ≡ false

abbrev to_zone : String → String → String
to_zone String.[] zone = zone
to_zone (String.◌∷◌ c s) zone = String.◌∷◌ c (to_zone s zone)

-- `s.replace("Z", "+00:00")`
pub replace_zulu : String → String
replace_zulu String.[] = String.[]
replace_zulu (String.◌∷◌ c s) =
    let rest = replace_zulu s in
    if eqb (code c) b'Z' then to_zone "+00:00" rest else String.◌∷◌ c rest

abbrev parsed : Option String → Result String
parsed none = err (value_error bad_timestamp)
parsed (some s) = ok s

-- `_normalize_now(value).isoformat()`, the same in the four modules that define it
unfoldable pub normalize_now : Calendar → String → Result String
unfolding replace_zulu
normalize_now cal value =
    if is_empty (strip value)
    then err (value_error missing_timestamp)
    else parsed (cal.to_utc (replace_zulu (strip value)))

-- `_iso_from_epoch`
unfoldable pub iso_from_epoch : Calendar → ℕ → Option String
iso_from_epoch cal seconds = if eqb seconds 0 then none else some (cal.from_epoch seconds)
