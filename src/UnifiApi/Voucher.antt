-- ===== src/UnifiApi/Voucher.antt =====
-- `UniFiClient._voucher_from_json` of unifi_api.py.
-- A negative counter, which the API excludes, is read as 0: the numbers of a voucher are natural.
pub mod Errors
use mathlib.Core.Option
use voucher_management_deskt.Models.{ApiVoucher}
use voucher_management_deskt.Workflows.Remote.{Reply, answer, fail, api_error}
use voucher_management_deskt.Json.{
  Python, ℤ, Fields, null, text, Json, stripped, pos, find, negsuc, truthy_json, int_of,
}
use voucher_management_deskt.Prelude.{
  Option, List, ℕ, String, Bool, ◌∷◌, none, if◌then◌else◌, some, is_empty, any_by, [], ltb, not,
  is_some, ◌||◌,
}

abbrev pub natural : ℤ → ℕ
natural (pos n) = n
natural (negsuc n) = 0

abbrev pub required : List String
required =
    "id" ∷ "createdAt" ∷ "name" ∷ "code" ∷ "authorizedGuestCount" ∷ "expired" ∷ "timeLimitMinutes"
    ∷ []

abbrev or_null : Option Json → Json
or_null none = null
or_null (some v) = v

abbrev or_zero : Option ℕ → ℕ
or_zero none = 0
or_zero (some n) = n

abbrev or_api_error : {A : Type 0} → Option A → Reply A
or_api_error none = fail api_error
or_api_error (some a) = answer a

infixl 5 ◌>>=◌
abbrev ◌>>=◌ : {A B : Type 0} → Reply A → (A → Reply B) → Reply B
answer a >>= f = f a
fail e >>= f = fail e

module _ (py : Python) where
  -- `str(item.get(key, "")).strip()`, for a key that is there
  abbrev text_at : String → Fields → String
  text_at k fs = stripped py (or_null (find k fs))

  -- `int(item[key])`
  abbrev int_at : String → Fields → Reply ℕ
  int_at k fs = or_api_error (Option.map natural (int_of py (or_null (find k fs))))

  -- `optional_int`, and the test of `authorizedGuestLimit`
  unfoldable pub optional : Json → Reply (Option ℕ)
  optional null = answer none
  optional v = or_api_error (Option.map (λ z. some (natural z)) (int_of py v))

  abbrev optional_at : String → Fields → Reply (Option ℕ)
  optional_at k fs = optional (or_null (find k fs))

  abbrev epoch_of_text : String → Reply ℕ
  epoch_of_text s = if is_empty s then answer 0 else or_api_error (py.epoch_of s)

  -- `_timestamp_to_epoch(item.get(key))`
  unfoldable pub timestamp : Json → Reply ℕ
  timestamp null = answer 0
  timestamp (text s) = epoch_of_text s
  timestamp v = or_api_error (py.epoch_of (py.str_of v))

  abbrev timestamp_at : String → Fields → Reply ℕ
  timestamp_at k fs = timestamp (or_null (find k fs))

  unfoldable pub status_of : Bool → ℕ → String
  status_of expired used =
      if expired then "EXPIRED" else if ltb 0 used then "USED_MULTIPLE" else "VALID_MULTI"

  -- the three counters
  unfoldable pub counters_of : Fields → Reply (ℕ × ℕ × Option ℕ)
  counters_of fs = do
    duration ← int_at "timeLimitMinutes" fs
    used ← int_at "authorizedGuestCount" fs
    quota ← optional_at "authorizedGuestLimit" fs
    answer (duration, used, quota)

  -- the three timestamps: of activation, expiry and creation
  unfoldable pub times_of : Fields → Reply (ℕ × ℕ × ℕ)
  times_of fs = do
    start_time ← timestamp_at "activatedAt" fs
    end_time ← timestamp_at "expiresAt" fs
    create_time ← timestamp_at "createdAt" fs
    answer (start_time, end_time, create_time)

  -- the three optional limits
  unfoldable pub limits_of : Fields → Reply (Option ℕ × Option ℕ × Option ℕ)
  limits_of fs = do
    data_mb ← optional_at "dataUsageLimitMBytes" fs
    down_kbps ← optional_at "rxRateLimitKbps" fs
    up_kbps ← optional_at "txRateLimitKbps" fs
    answer (data_mb, down_kbps, up_kbps)

  unfoldable pub voucher_from_json : Fields → Reply ApiVoucher
  unfolding status_of
  voucher_from_json fs =
      if any_by (λ k. not (is_some (find k fs))) required
      then fail api_error
      else if is_empty (text_at "id" fs) || is_empty (text_at "code" fs)
      then fail api_error
      else (do
        counters ← counters_of fs
        times ← times_of fs
        limits ← limits_of fs
        answer (record {
          id = text_at "id" fs;
          code = text_at "code" fs;
          recipient = text_at "name" fs;
          duration_minutes = counters.0;
          create_time = times.2;
          quota = or_zero counters.2;
          used = counters.1;
          status = status_of (truthy_json (or_null (find "expired" fs))) counters.1;
          start_time = times.0;
          end_time = times.1;
          data_mb = limits.0;
          down_kbps = limits.1;
          up_kbps = limits.2;
        }))
