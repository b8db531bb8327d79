-- ===== src/SyncStore/Snapshot.antt =====
-- The transaction of `persist_successful_snapshot`, and `persist_create_result_to_path`, of
-- sync_store.py.
pub mod Atomicity
mod Tests
use voucher_management_deskt.SecurityRevocation.Reconciliation.{
  reconcile_pending_security_revocations,
}
use voucher_management_deskt.PreparationDeletion.Resolution.{reconcile_preparation_delete_requests}
use voucher_management_deskt.Database.Created.{mark_application_created_vouchers}
use voucher_management_deskt.Database.Upsert.{upsert_voucher}
use voucher_management_deskt.Models.{ApiVoucher, merge_by_id}
use voucher_management_deskt.Database.Rows.{Voucher, Db, Observation, Controller, SyncRun}
use voucher_management_deskt.SyncStore.Persist.{Change, persist_vouchers, values_of, omit_rows}
use voucher_management_deskt.Calendar.{Calendar}
use voucher_management_deskt.Prelude.{
  List, [], ◌∷◌, ℕ, none, String, Option, filter_by, length, if◌then◌else◌, update_by, ◌++◌, Bool,
  map, ◌==◌, not, eqb, any_by, some, elem, ◌||◌, clean_ids, is_nil,
}
use voucher_management_deskt.Database.Action.{
  Action, ◌>>=◌, ◌>>◌, gets, modify, raise_if, for_each, pure, integrity_error, raise, transaction,
  value_error, missing_nominality, absent_and_present,
}

-- the keyword arguments that a caller may leave out
pub record SnapshotOptions : Type 0 where
  pub application_created_ids : List String
  pub application_created_is_nominal : Option Bool
  pub confirmed_absent_ids : List String

abbrev pub no_options : SnapshotOptions
no_options = record {
  application_created_ids = [];
  application_created_is_nominal = none;
  confirmed_absent_ids = [];
}

-- the foreign key and the UNIQUE constraint of sync_runs
pub run_refused : ℕ → String → Db → Bool
run_refused c run db =
    not (any_by (λ (k : Controller). eqb k.id c) db.controllers)
    || any_by (λ (r : SyncRun). r.sync_uuid == run) db.sync_runs

module _ (cal : Calendar) (c : ℕ) (observed_at run : String) where
  pub insert_run : ℕ → Action (Unit {0})
  unfolding run_refused
  insert_run received = do
    refused ← gets (run_refused c run)
    raise_if refused integrity_error
    modify (λ db. record db {
      sync_runs =
          db.sync_runs
          ++ record {
            sync_uuid = run;
            controller_id = c;
            completed_at = observed_at;
            vouchers_received = received;
            changes_detected = 0;
          }
            ∷ [];
    })

  mark_created : List String → Option Bool → Action (Unit {0})
  mark_created [] is_nominal = pure tt
  mark_created (u ∷ us) none = raise (value_error missing_nominality)
  mark_created (u ∷ us) (some is_nominal) =
      mark_application_created_vouchers c (u ∷ us) is_nominal observed_at

  pub observation_of : Change → Observation
  observation_of x = record {
    voucher_id = x.voucher_id;
    observed_at = observed_at;
    previous_value = x.previous_value;
    new_value = x.new_value;
    sync_uuid = run;
  }

  -- the INSERTs of the observations, and the UPDATE of the run
  record_changes : List Change → Action (Unit {0})
  unfolding observation_of
  record_changes changes = modify (λ db. record db {
    observations = db.observations ++ map observation_of changes;
    sync_runs =
        update_by (λ (r : SyncRun). r.sync_uuid == run)
          (λ r. record r { changes_detected = length changes }) db.sync_runs;
  })

  mark_synchronized : Action (Unit {0})
  mark_synchronized = modify (λ db. record db {
    controllers =
        update_by (λ (k : Controller). eqb k.id c)
          (λ k. record k { last_successful_sync_at = some observed_at }) db.controllers;
  })

  -- inside the transaction; `previous` was read before it
  pub write_snapshot : List Voucher → List ApiVoucher → SnapshotOptions → Action (Unit {0})
  unfolding insert_run mark_created record_changes mark_synchronized
  write_snapshot previous vouchers options = do
    insert_run (length vouchers)
    found ← persist_vouchers cal c observed_at previous vouchers
    mark_created options.application_created_ids options.application_created_is_nominal
    raise_if
        (any_by (λ (v : ApiVoucher). elem ◌==◌ v.id (clean_ids options.confirmed_absent_ids))
          vouchers)
        (value_error absent_and_present)
    omitted ←
        omit_rows cal c observed_at (map (λ (v : ApiVoucher). v.id) vouchers)
          (clean_ids options.confirmed_absent_ids) previous
    record_changes (found ++ omitted)
    reconcile_preparation_delete_requests c (map (λ (v : ApiVoucher). v.id) vouchers)
        (clean_ids options.confirmed_absent_ids) observed_at
    reconcile_pending_security_revocations cal c (map (λ (v : ApiVoucher). v.id) vouchers)
        (clean_ids options.confirmed_absent_ids) observed_at "SYSTEM"
    mark_synchronized

  pub persist_successful_snapshot : List ApiVoucher → SnapshotOptions → Action String
  persist_successful_snapshot vouchers options = do
    previous ← gets (λ db. filter_by (λ v. eqb v.controller_id c) db.vouchers)
    transaction (write_snapshot previous vouchers options)
    pure run

  upsert_all : List ApiVoucher → Action (Unit {0})
  upsert_all vouchers =
      for_each vouchers λ v. upsert_voucher (values_of cal c observed_at v) >> pure tt

  -- the branch for rows that a list did not confirm: only what is known positively is written
  pub persist_partial : List ApiVoucher → List ApiVoucher → Bool → Action (Unit {0})
  unfolding upsert_all
  persist_partial rows created is_nominal = do
    upsert_all (merge_by_id rows created)
    mark_application_created_vouchers c (map (λ (v : ApiVoucher). v.id) created) is_nominal
        observed_at

  pub persist_create_result :
      List ApiVoucher → List ApiVoucher → Bool → Bool → Bool → Action (Unit {0})
  persist_create_result snapshot created snapshot_complete snapshot_observed is_nominal =
      if snapshot_complete
      then (persist_successful_snapshot snapshot (record {
        application_created_ids = map (λ (v : ApiVoucher). v.id) created;
        application_created_is_nominal = some is_nominal;
        confirmed_absent_ids = [];
      })
          >> pure tt)
      else if is_nil created
      then pure tt
      else transaction
          (persist_partial (if snapshot_observed then snapshot else created) created is_nominal)
