-- ===== src/SyncStore/Absences.antt =====
-- `inspect_snapshot_absences` of sync_store.py.
pub mod Plan
mod Tests
use voucher_management_deskt.Database.Queries.{is_archived}
use voucher_management_deskt.Database.Rows.{Voucher, Db}
use voucher_management_deskt.Prelude.{
  List, [], ◌∷◌, ℕ, String, Bool, clean_ids, strip, filter_by, if◌then◌else◌, eqb, ◌&&◌, is_empty,
  not, ◌||◌, elem, ◌==◌, leb,
}

pub record SnapshotAbsencePlan : Type 0 where
  pub suspected_ids : List String
  pub confirmation_ids : List String

-- the SELECT
abbrev pub is_present_row : ℕ → Voucher → Bool
is_present_row c v = eqb v.controller_id c && not (is_archived v) && v.present_on_controller

-- the loop over the rows
pub plan_rows : List String → List Voucher → SnapshotAbsencePlan
plan_rows present [] = record { suspected_ids = []; confirmation_ids = [] }
plan_rows present (v ∷ vs) =
    let plan = plan_rows present vs in
    let remote = strip v.unifi_id in
    if is_empty remote || elem ◌==◌ remote present then plan else record {
      suspected_ids = remote ∷ plan.suspected_ids;
      confirmation_ids =
          if leb 1 v.missing_observation_count
          then remote ∷ plan.confirmation_ids
          else plan.confirmation_ids;
    }

unfoldable pub inspect_snapshot_absences : ℕ → List String → Db → SnapshotAbsencePlan
unfolding plan_rows
inspect_snapshot_absences c present_ids db =
    plan_rows (clean_ids present_ids) (filter_by (is_present_row c) db.vouchers)
