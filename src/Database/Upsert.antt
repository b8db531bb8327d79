-- ===== src/Database/Upsert.antt =====
-- `Database.upsert_voucher`: the latest controller state is written, local facts are kept.
pub mod History
mod Tests
use voucher_management_deskt.Prelude.{
  ℕ, String, Bool, true, false, not, ◌&&◌, ◌||◌, Option, none, some, List, [], ◌∷◌, ◌++◌, ltb, eqb,
  if◌then◌else◌, is_some, is_empty, coalesce, any_by, find_by, update_by, opt_eqb,
}
use voucher_management_deskt.Database.Rows.{
  Voucher, Controller, Db, Origin, controller, unknown_origin, unknown, has_key, next_id,
}
use voucher_management_deskt.Database.Action.{
  Action, runtime_error, integrity_error, row_disappeared, raise, pure, gets, modify, raise_if,
  ◌>>=◌, ◌>>◌,
}

-- the keyword arguments of `upsert_voucher`
pub record UpsertValues : Type 0 where
  pub controller_id : ℕ
  pub unifi_id : String
  pub code : String
  pub name : String
  pub created_at : Option String
  pub imported_at : String
  pub duration_minutes : Option ℕ
  pub authorized_guest_limit : Option ℕ
  pub authorized_guest_count : ℕ
  pub activated_at : Option String
  pub expires_at : Option String
  pub expired : Bool
  pub data_limit_mb : Option ℕ
  pub download_limit_kbps : Option ℕ
  pub upload_limit_kbps : Option ℕ
  pub last_synced_at : String

-- `bool(x)` of a text that may be None
abbrev pub truthy : Option String → Bool
truthy none = false
truthy (some s) = not (is_empty s)

-- the `VALUES` row, with the schema's defaults for the columns that it leaves out
pub inserted_row : UpsertValues → ℕ → Voucher
inserted_row x k = record {
  id = k;
  controller_id = x.controller_id;
  unifi_id = x.unifi_id;
  code = x.code;
  name = x.name;
  created_at = x.created_at;
  imported_at = x.imported_at;
  duration_minutes = x.duration_minutes;
  authorized_guest_limit = x.authorized_guest_limit;
  authorized_guest_count = x.authorized_guest_count;
  ever_used = ltb 0 x.authorized_guest_count || truthy x.activated_at || x.expired;
  usage_observed = true;
  activated_at = x.activated_at;
  expires_at = x.expires_at;
  expired = x.expired;
  expiry_observed = true;
  data_limit_mb = x.data_limit_mb;
  download_limit_kbps = x.download_limit_kbps;
  upload_limit_kbps = x.upload_limit_kbps;
  present_on_controller = true;
  missing_observation_count = 0;
  missing_since = none;
  last_seen_at = some x.last_synced_at;
  last_synced_at = x.last_synced_at;
  origin = controller;
  is_nominal = none;
  print_state = unknown;
  alignment_completed_at = none;
  nominality_redacted = false;
  archived_at = none;
}

abbrev discovered : Origin → Origin
discovered unknown_origin = controller
discovered o = o

-- the `DO UPDATE SET` clause
pub updated_row : UpsertValues → Voucher → Voucher
updated_row x v = record v {
  code = x.code;
  name = x.name;
  created_at = x.created_at;
  duration_minutes = x.duration_minutes;
  authorized_guest_limit = x.authorized_guest_limit;
  authorized_guest_count =
      if ltb v.authorized_guest_count x.authorized_guest_count
      then x.authorized_guest_count
      else v.authorized_guest_count;
  ever_used = v.ever_used || ltb 0 x.authorized_guest_count || is_some x.activated_at || x.expired;
  usage_observed = true;
  activated_at = coalesce v.activated_at x.activated_at;
  expires_at = coalesce x.expires_at v.expires_at;
  expired = v.expired || x.expired;
  expiry_observed = true;
  data_limit_mb = x.data_limit_mb;
  download_limit_kbps = x.download_limit_kbps;
  upload_limit_kbps = x.upload_limit_kbps;
  present_on_controller = true;
  missing_observation_count = 0;
  missing_since = none;
  archived_at = none;
  origin = discovered v.origin;
  last_seen_at = some x.last_synced_at;
  last_synced_at = x.last_synced_at;
}

-- the statement's effect on the table
pub upsert_rows : UpsertValues → List Voucher → List Voucher
unfolding inserted_row updated_row
upsert_rows x vs =
    if any_by (has_key x.controller_id x.unifi_id) vs
    then update_by (has_key x.controller_id x.unifi_id) (updated_row x) vs
    else vs ++ inserted_row x (next_id (λ v. v.id) vs) ∷ []

row_id : Option Voucher → Action ℕ
row_id none = raise (runtime_error row_disappeared)
row_id (some v) = pure v.id

-- The CHECK on the guest limit, and the foreign key of a row that is inserted, may fail.
pub violates_constraint : UpsertValues → Db → Bool
violates_constraint x db =
    opt_eqb x.authorized_guest_limit (some 0)
    || not (any_by (has_key x.controller_id x.unifi_id) db.vouchers)
      && not (any_by (λ (c : Controller). eqb c.id x.controller_id) db.controllers)

-- `write` of `upsert_voucher`, on a connection whose transaction the caller owns
unfoldable pub upsert_voucher : UpsertValues → Action ℕ
unfolding upsert_rows row_id violates_constraint
upsert_voucher x = do
  invalid ← gets (violates_constraint x)
  raise_if invalid integrity_error
  modify (λ db. record db { vouchers = upsert_rows x db.vouchers })
  row ← gets (λ db. find_by (has_key x.controller_id x.unifi_id) db.vouchers)
  row_id row
