-- ===== src/Database/Upsert/Tests.antt =====
-- Upserts into the sample database (database.py).
use voucher_management_deskt.Prelude.{none, some, false}
use voucher_management_deskt.Database.Upsert.{UpsertValues}

abbrev values : UpsertValues
values = record {
  controller_id = 1;
  unifi_id = "b";
  code = "12345-67890";
  name = "Ada";
  created_at = none;
  imported_at = "2026-01-03";
  duration_minutes = some 60;
  authorized_guest_limit = some 1;
  authorized_guest_count = 1;
  activated_at = some "2026-01-02";
  expires_at = none;
  expired = false;
  data_limit_mb = none;
  download_limit_kbps = none;
  upload_limit_kbps = none;
  last_synced_at = "2026-01-03";
}
