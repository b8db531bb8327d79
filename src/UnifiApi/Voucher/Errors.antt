-- ===== src/UnifiApi/Voucher/Errors.antt =====
-- The errors of `_voucher_from_json` of unifi_api.py.
use mathlib.Core.Option
use voucher_management_deskt.Prelude.{Option, arith, some, ◌≡◌, none, ◌≢◌}
use voucher_management_deskt.Workflows.Remote.{
  Reply, RemoteError, fail, api_error, not_found, mutation_uncertain, other_exception,
}
use voucher_management_deskt.Json.{
  text, Python, Fields, Json, bool, num, arr, obj, null, find, int_of,
}
use voucher_management_deskt.UnifiApi.Voucher.{
  or_null, or_api_error, timestamp, optional, voucher_from_json, times_of, limits_of, counters_of,
  natural,
}

-- every error of a call is `UniFiApiError`
abbrev FailsPlainly : {A : Type 0} → Reply A → Type 0
FailsPlainly r = (r ≢ fail not_found) × (r ≢ fail mutation_uncertain) × (r ≢ fail other_exception)

or_api_error-FailsPlainly : {A : Type 0} (o : Option A) → FailsPlainly (or_api_error o)
or_api_error-FailsPlainly none = ground arith
or_api_error-FailsPlainly (some a) = ground arith

module _ (py : Python) where
  optional-FailsPlainly : (v : Json) → FailsPlainly (optional py v)
  unfolding optional
  optional-FailsPlainly null = ground arith
  optional-FailsPlainly (bool b) = ground arith
  optional-FailsPlainly (num b) = ground arith
  optional-FailsPlainly (text b) = ground arith
  optional-FailsPlainly (arr b) = ground arith
  optional-FailsPlainly (obj b) = ground arith

  timestamp-FailsPlainly : (v : Json) → FailsPlainly (timestamp py v)
  unfolding timestamp
  timestamp-FailsPlainly null = ground arith
  timestamp-FailsPlainly (bool b) = ground arith
  timestamp-FailsPlainly (num b) = ground arith
  timestamp-FailsPlainly (text b) = ground arith
  timestamp-FailsPlainly (arr b) = ground arith
  timestamp-FailsPlainly (obj b) = ground arith

  counters_of-FailsPlainly : (fs : Fields) → FailsPlainly (counters_of py fs)
  unfolding counters_of
  counters_of-FailsPlainly fs = ground (
    arith,
    optional-FailsPlainly (or_null (find "authorizedGuestLimit" fs)),
    or_api_error-FailsPlainly
        (Option.map natural (int_of py (or_null (find "timeLimitMinutes" fs)))),
    or_api_error-FailsPlainly
        (Option.map natural (int_of py (or_null (find "authorizedGuestCount" fs)))),
  )

  times_of-FailsPlainly : (fs : Fields) → FailsPlainly (times_of py fs)
  unfolding times_of
  times_of-FailsPlainly fs = ground (
    arith,
    timestamp-FailsPlainly (or_null (find "activatedAt" fs)),
    timestamp-FailsPlainly (or_null (find "expiresAt" fs)),
    timestamp-FailsPlainly (or_null (find "createdAt" fs)),
  )

  limits_of-FailsPlainly : (fs : Fields) → FailsPlainly (limits_of py fs)
  unfolding limits_of
  limits_of-FailsPlainly fs = ground (
    arith,
    optional-FailsPlainly (or_null (find "dataUsageLimitMBytes" fs)),
    optional-FailsPlainly (or_null (find "rxRateLimitKbps" fs)),
    optional-FailsPlainly (or_null (find "txRateLimitKbps" fs)),
  )

  pub voucher_from_json-FailsPlainly :
      (fs : Fields) (x : RemoteError) → voucher_from_json py fs ≡ fail x → x ≡ api_error
  unfolding voucher_from_json
  voucher_from_json-FailsPlainly fs x h =
      ground
        (arith, counters_of-FailsPlainly fs, times_of-FailsPlainly fs, limits_of-FailsPlainly fs)
