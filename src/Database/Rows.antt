-- ===== src/Database/Rows.antt =====
-- The tables of `SCHEMA_SQL` in src/voucher_management/database.py, one record for a row. A table is
-- the list of its rows in the order of their rowids. A 0/1 column under a CHECK is a `Bool`, a TEXT
-- column under a CHECK is an enumeration, and a column that may be NULL is an `Option`.
use voucher_management_deskt.Prelude.{
  ℕ, suc, String, ◌==◌, Bool, true, false, ◌&&◌, Option, List, [], ◌∷◌, eqb,
}
use Prim.Native.Nat.{max}

pub data PrintState : Type 0 where
  unknown not_printed printed : PrintState

pub data Origin : Type 0 where
  controller application legacy_application unknown_origin : Origin

abbrev pub is_printed : PrintState → Bool
is_printed printed = true
is_printed _ = false

abbrev pub is_not_printed : PrintState → Bool
is_not_printed not_printed = true
is_not_printed _ = false

abbrev pub is_unknown : PrintState → Bool
is_unknown unknown = true
is_unknown _ = false

abbrev pub is_controller : Origin → Bool
is_controller controller = true
is_controller _ = false

abbrev pub is_application : Origin → Bool
is_application application = true
is_application _ = false

-- `assigned_to` and `notes` are left out: no modelled function reads or writes them
pub record Voucher : Type 0 where
  pub id : ℕ
  pub controller_id : ℕ
  pub unifi_id : String
  pub code : String
  pub name : String
  pub created_at : Option String
  pub imported_at : String
  pub duration_minutes : Option ℕ
  pub authorized_guest_limit : Option ℕ
  pub authorized_guest_count : ℕ
  pub ever_used : Bool
  pub usage_observed : Bool
  pub activated_at : Option String
  pub expires_at : Option String
  pub expired : Bool
  pub expiry_observed : Bool
  pub data_limit_mb : Option ℕ
  pub download_limit_kbps : Option ℕ
  pub upload_limit_kbps : Option ℕ
  pub present_on_controller : Bool
  pub missing_observation_count : ℕ
  pub missing_since : Option String
  pub last_seen_at : Option String
  pub last_synced_at : String
  pub origin : Origin
  pub is_nominal : Option Bool
  pub print_state : PrintState
  pub alignment_completed_at : Option String
  pub nominality_redacted : Bool
  pub archived_at : Option String

pub record Controller : Type 0 where
  pub id : ℕ
  pub name : String
  pub last_successful_sync_at : Option String

-- the values of `event_type` that the program writes; `other` is any further text
pub data EventType : Type 0 where
  voucher_aligned printed_from_unknown_state controller_deleted : EventType
  preparation_delete_requested preparation_deleted preparation_delete_not_applied : EventType
  security_revoke_requested security_revoked security_revoke_not_applied : EventType
  uncertain_create_associated uncertain_create_association_rejected : EventType
  other : String → EventType

pub data Source : Type 0 where
  unifi from_application operator system migration : Source

-- the values in the JSON object of `details_json`
pub data Detail : Type 0 where
  text : String → Detail
  flag : Bool → Detail

-- The object that `details_json` encodes; a column that is NULL or no JSON object is `none`.
abbrev pub Details : Type 0
Details = Option (List (String × Detail))

-- `event_uuid` is left out: it is a fresh uuid4 that nothing reads
pub record Event : Type 0 where
  pub id : ℕ
  pub voucher_id : ℕ
  pub event_type : EventType
  pub occurred_at : String
  pub source : Source
  pub windows_user : Option String
  pub details : Details

-- `created_at` equals `submitted_at` in every row that the program writes
pub record PrintJob : Type 0 where
  pub id : ℕ
  pub print_job_uuid : String
  pub submitted_at : String
  pub windows_user : String
  pub output_file : String
  pub document_copies : ℕ
  pub is_audited : Bool

pub record VoucherPrint : Type 0 where
  pub id : ℕ
  pub print_job_id : ℕ
  pub voucher_id : ℕ
  pub printed_at : String
  pub windows_user : String
  pub physical_copies : ℕ
  pub print_sequence : ℕ
  pub is_reprint : Bool

-- `started_at` equals `completed_at`, and `status` is 'SUCCESS', in every row that is written
pub record SyncRun : Type 0 where
  pub sync_uuid : String
  pub controller_id : ℕ
  pub completed_at : String
  pub vouchers_received : ℕ
  pub changes_detected : ℕ

-- the columns of `OBSERVED_FIELDS` in sync_store.py, with what they hold
pub data Observed : Type 0 where
  guest_count : ℕ → Observed
  activated : Option String → Observed
  expires : Option String → Observed
  is_expired : Bool → Observed
  is_expiry_observed : Bool → Observed
  is_present : Bool → Observed

pub record Observation : Type 0 where
  pub voucher_id : ℕ
  pub observed_at : String
  pub previous_value : Observed
  pub new_value : Observed
  pub sync_uuid : String

pub record Db : Type 0 where
  pub controllers : List Controller
  pub vouchers : List Voucher
  pub events : List Event
  pub print_jobs : List PrintJob
  pub prints : List VoucherPrint
  pub sync_runs : List SyncRun
  pub observations : List Observation

-- the largest rowid, 0 for an empty table
unfoldable pub max_id {ℓ} : {A : Type ℓ} → (A → ℕ) → List A → ℕ
max_id key [] = 0
max_id key (x ∷ xs) = max (key x) (max_id key xs)

-- SQLite gives a new row the rowid after the largest
abbrev pub next_id {ℓ} : {A : Type ℓ} → (A → ℕ) → List A → ℕ
next_id key xs = suc (max_id key xs)

-- `controller_id=? AND unifi_id=?`
abbrev pub has_key : ℕ → String → Voucher → Bool
has_key c u v = eqb v.controller_id c && v.unifi_id == u

abbrev pub has_id : ℕ → Voucher → Bool
has_id k v = eqb v.id k
