-- ===== src/Recovery/Intent.antt =====
-- `load_pending_create_intent` and `write_pending_create_intent` of uncertain_create_recovery.py. The
-- marker is written to a temporary file that replaces the old one, so that it is there whole or not at all.
pub mod Tests
pub mod RoundTrip
use voucher_management_deskt.Prelude.{
  codes, strip, ℕ, Option, if◌then◌else◌, Bool, String, ltb, clean_ids, is_empty, true, none, some,
  eqb, List, length, leb, ◌||◌, ◌&&◌, not,
}
use mathlib.Core.Option
use Prim.Native.Char.{Char, code}
use voucher_management_deskt.Prelude.Options.{◌>>=◌}
use voucher_management_deskt.Recovery.Marker.{
  int_from, ids_from, bool_from, text_from, texts, Marker, exists, holds, is_format_one,
  missing_file,
}
use voucher_management_deskt.Json.{
  ℤ, negsuc, Json, Fields, Python, obj, text, num, bool, arr, find, pos, end, field, null,
}
use voucher_management_deskt.Database.Action.{
  Result, ok, err, runtime_error, value_error, invalid_intent, invalid_marker, marker_exists,
  os_error,
}

pub record PendingCreateIntent : Type 0 where
  pub controller_id : ℕ
  pub site_id : String
  pub requested_at : String
  pub baseline_ids : List String
  pub quantity : ℕ
  pub recipient_digest : String
  pub duration_minutes : ℕ
  pub quota : ℕ
  pub data_mb : Option ℕ
  pub down_kbps : Option ℕ
  pub up_kbps : Option ℕ
  pub is_nominal : Bool

-- `str.lower` where the result can still be a digest: the capitals from A to F
abbrev lower_char : Char → Char
lower_char c =
    if eqb (code c) b'A'
    then "a"
    else if eqb (code c) b'B'
    then "b"
    else if eqb (code c) b'C'
    then "c"
    else if eqb (code c) b'D'
    then "d"
    else if eqb (code c) b'E'
    then "e"
    else if eqb (code c) b'F'
    then "f"
    else c

unfoldable pub lower : String → String
lower String.[] = String.[]
lower (String.◌∷◌ c s) = String.◌∷◌ (lower_char c) (lower s)

-- `ch in "0123456789abcdef"`, for every character
unfoldable pub all_hex : String → Bool
all_hex String.[] = true
all_hex (String.◌∷◌ c s) =
    (leb b'0' (code c) && leb (code c) b'9' || leb b'a' (code c) && leb (code c) b'f') && all_hex s

-- 64 hexadecimal digits
unfoldable pub is_digest : String → Bool
is_digest s = eqb (length (codes s)) 64 && all_hex s

-- `_optional_nonnegative_int`
unfoldable pub optional_natural : Option Json → Option (Option ℕ)
optional_natural none = some none
optional_natural (some null) = some none
optional_natural v = Option.map some (int_from 0 v)

module _ (py : Python) where
  -- the tests of the fields that are not optional, and the fields; the order of the tests is of no use,
  -- since all raise the same error
  unfoldable pub decode : Fields → Option PendingCreateIntent
  decode fs = do
    controller_id ← int_from 1 (find "controller_id" fs)
    quantity ← int_from 1 (find "quantity" fs)
    duration_minutes ← int_from 1 (find "duration_minutes" fs)
    quota ← int_from 0 (find "quota" fs)
    is_nominal ← bool_from (find "is_nominal" fs)
    baseline_ids ← ids_from (find "baseline_ids" fs)
    data_mb ← optional_natural (find "data_mb" fs)
    down_kbps ← optional_natural (find "down_kbps" fs)
    up_kbps ← optional_natural (find "up_kbps" fs)
    (let site_id = text_from py (find "site_id" fs) in
        let requested_at = text_from py (find "requested_at" fs) in
        let digest = lower (text_from py (find "recipient_digest" fs)) in
        if is_empty site_id || is_empty requested_at || not (is_digest digest)
        then none
        else some (record {
          controller_id = controller_id;
          site_id = site_id;
          requested_at = requested_at;
          baseline_ids = baseline_ids;
          quantity = quantity;
          recipient_digest = digest;
          duration_minutes = duration_minutes;
          quota = quota;
          data_mb = data_mb;
          down_kbps = down_kbps;
          up_kbps = up_kbps;
          is_nominal = is_nominal;
        }))

  abbrev decoded : Option PendingCreateIntent → Result (Option PendingCreateIntent)
  decoded none = err (runtime_error invalid_marker)
  decoded (some p) = ok (some p)

  unfoldable pub load_pending_create_intent : Marker → Result (Option PendingCreateIntent)
  load_pending_create_intent missing_file = ok none
  load_pending_create_intent (holds (obj fs)) =
      if is_format_one (find "format" fs)
      then decoded (decode fs)
      else err (runtime_error invalid_marker)
  load_pending_create_intent _ = err (runtime_error invalid_marker)

-- The arguments of `write_pending_create_intent`. Its numbers are any integers.
pub record IntentArguments : Type 0 where
  pub controller_id : ℤ
  pub site_id : String
  pub requested_at : String
  pub baseline_ids : List String
  pub quantity : ℤ
  pub recipient_digest : String
  pub duration_minutes : ℤ
  pub quota : ℤ
  pub data_mb : Option ℤ
  pub down_kbps : Option ℤ
  pub up_kbps : Option ℤ
  pub is_nominal : Bool

-- the arguments as they are written
unfoldable pub normalized : IntentArguments → IntentArguments
normalized p = record p {
  site_id = strip p.site_id;
  requested_at = strip p.requested_at;
  baseline_ids = clean_ids p.baseline_ids;
  recipient_digest = lower (strip p.recipient_digest);
}

-- `int(value) < least`, for a `least` that is not negative
abbrev pub is_below : ℕ → ℤ → Bool
is_below least (pos n) = ltb n least
is_below least (negsuc n) = true

pub intent_invalid : IntentArguments → Bool
intent_invalid p =
    is_below 1 p.controller_id
    || is_empty p.site_id
    || is_empty p.requested_at
    || is_below 1 p.quantity
    || not (is_digest p.recipient_digest)
    || is_below 1 p.duration_minutes
    || is_below 0 p.quota

abbrev optional_number : Option ℤ → Json
optional_number none = null
optional_number (some z) = num z

abbrev pub intent_payload : IntentArguments → Fields
intent_payload p = field "format" (num (pos 1)) (
    field "controller_id" (num p.controller_id) (
      field "site_id" (text p.site_id) (
        field "requested_at" (text p.requested_at) (
          field "baseline_ids" (arr (texts p.baseline_ids)) (
            field "quantity" (num p.quantity) (
              field "recipient_digest" (text p.recipient_digest) (
                field "duration_minutes" (num p.duration_minutes) (
                  field "quota" (num p.quota) (
                    field "data_mb" (optional_number p.data_mb) (
                      field "down_kbps" (optional_number p.down_kbps) (
                        field "up_kbps" (optional_number p.up_kbps)
                          (field "is_nominal" (bool p.is_nominal) end))))))))))))

-- `write_pending_create_intent`; `io_fails` is OSError while the temporary file is written or moved
pub write_pending_create_intent : Bool → IntentArguments → Marker → Result (Unit {0}) × Marker
write_pending_create_intent io_fails p marker =
    if intent_invalid (normalized p)
    then (err (value_error invalid_intent), marker)
    else if exists marker
    then (err (runtime_error marker_exists), marker)
    else if io_fails
    then (err os_error, marker)
    else (ok tt, holds (obj (intent_payload (normalized p))))
