-- ===== src/Workflows/Params/Tests.antt =====
-- Parameters of the dialog that the validation takes and the client refuses.
use voucher_management_deskt.Workflows.Params.Accepted.{validate-checked_payload}
use voucher_management_deskt.Workflows.Remote.{CreateParams, answer, fail, api_error}
use voucher_management_deskt.UnifiApi.Mutations.{duration_of, checked_payload, payload_of}
use voucher_management_deskt.Prelude.{ℕ, ◌≤◌, none, strip, ◌≡◌, some, refl, ◌<◌}
use voucher_management_deskt.Workflows.Params.{
  required_int, in_range, quota_of, unit_of, limits_of, optional_positive_int, as_text,
  validate_create_params, Entry, Conversions, written, whole, missing,
}
use voucher_management_deskt.Json.{pos}

abbrev conversions : Conversions
conversions = record { int_of_text = λ s. none; str_of = λ e. "" }

abbrev nothing_written : Entry
nothing_written = written ""

-- a duration in days
abbrev days : ℕ → CreateParams
days n = record {
  recipient = "Ada";
  quantity = 3;
  expire_number = n;
  expire_unit = 1440;
  quota = 1;
  data_mb = none;
  down_mbps = none;
  up_mbps = none;
}

long_days :
    validate_create_params conversions
      (written " Ada ")
      (whole (pos 3))
      (written "Monouso")
      missing
      (whole (pos 1000))
      (written "Giorni")
      nothing_written
      nothing_written
      nothing_written
    ≡ some (days 1000)
unfolding validate_create_params required_int in_range quota_of unit_of limits_of
    optional_positive_int as_text strip
long_days = refl

validate-checked_payload_example :
    (duration_of (days 1000) ≤ 1000000
      → checked_payload (days 1000) ≡ answer (payload_of (days 1000)))
    × (1000000 < duration_of (days 1000) → checked_payload (days 1000) ≡ fail api_error)
validate-checked_payload_example =
    validate-checked_payload conversions (written " Ada ") (whole (pos 3)) (written "Monouso")
      missing (whole (pos 1000)) (written "Giorni") nothing_written nothing_written nothing_written
      (days 1000) long_days
