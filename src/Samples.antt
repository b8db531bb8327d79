-- ===== src/Samples.antt =====
-- Vouchers, rows and a database that the tests of several modules run on.
-- a voucher of the controller (unifi_api.py): remote id, code, guests that used it
use voucher_management_deskt.Calendar.{Calendar}
use voucher_management_deskt.Models.{ApiVoucher}
use voucher_management_deskt.Database.Rows.{Db, Voucher, application, unknown, not_printed}
use voucher_management_deskt.Prelude.{String, ℕ, some, none, refl, ◌∷◌, false, true, []}

abbrev pub api_voucher : String → String → ℕ → ApiVoucher
api_voucher id code used = record {
  id = id;
  code = code;
  recipient = "Ada";
  duration_minutes = 60;
  create_time = 1;
  quota = 1;
  used = used;
  status = "VALID_ONE";
  start_time = 0;
  end_time = 0;
  data_mb = none;
  down_kbps = none;
  up_kbps = none;
}

abbrev pub first_voucher : ApiVoucher
first_voucher = api_voucher "a" "1234567890" 0

abbrev pub second_voucher : ApiVoucher
second_voucher = api_voucher "b" "0987654321" 0

-- a row of the table `vouchers` (database.py): rowid, remote id
abbrev pub row : ℕ → String → Voucher
row id unifi_id = record {
  id = id;
  controller_id = 1;
  unifi_id = unifi_id;
  code = "12345-67890";
  name = "Ada";
  created_at = none;
  imported_at = "2026-01-01";
  duration_minutes = some 60;
  authorized_guest_limit = some 1;
  authorized_guest_count = 0;
  ever_used = false;
  usage_observed = true;
  activated_at = none;
  expires_at = none;
  expired = false;
  expiry_observed = true;
  data_limit_mb = none;
  download_limit_kbps = none;
  upload_limit_kbps = none;
  present_on_controller = true;
  missing_observation_count = 0;
  missing_since = none;
  last_seen_at = none;
  last_synced_at = "2026-01-01";
  origin = application;
  is_nominal = some true;
  print_state = not_printed;
  alignment_completed_at = some "2026-01-01";
  nominality_redacted = false;
  archived_at = none;
}

-- two rows of controller 1; the first is not aligned
abbrev pub sample_db : Db
sample_db = record {
  controllers = record { id = 1; name = "site"; last_successful_sync_at = none } ∷ [];
  vouchers =
      record (row 1 "a") { alignment_completed_at = none; is_nominal = none; print_state = unknown }
      ∷ row 2 "b"
      ∷ [];
  events = [];
  print_jobs = [];
  prints = [];
  sync_runs = [];
  observations = [];
}

-- a calendar with one text for every time
abbrev pub sample_calendar : Calendar
sample_calendar = record {
  to_utc = λ s. some "2026-01-02";
  from_epoch = λ n. "2026-01-02";
  from_epoch_nonempty = λ n. refl;
}
