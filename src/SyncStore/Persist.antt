-- ===== src/SyncStore/Persist.antt =====
-- `persist_successful_snapshot` of sync_store.py: one complete voucher list, in one transaction.
pub mod Suspicion
mod Tests
use voucher_management_deskt.Database.Queries.{
  is_delete_requested, is_revoke_requested, has_event, insert_event,
}
use voucher_management_deskt.Database.Upsert.{UpsertValues, upsert_voucher}
use voucher_management_deskt.Models.{ApiVoucher}
use voucher_management_deskt.Database.Rows.{
  Observed, Voucher, EventType, guest_count, has_id, activated, expires, controller_deleted, unifi,
  is_expired, is_expiry_observed, text, is_present, flag,
}
use voucher_management_deskt.Calendar.{Calendar, iso_from_epoch}
use voucher_management_deskt.Prelude.{
  List, [], ◌∷◌, ℕ, Bool, String, if◌then◌else◌, Option, coalesce, eqb, false, update_by, none,
  some, elem, find_by, ◌==◌, ◌||◌, opt_text_eqb, ◌++◌, not, ◌+◌, bool_eqb, true,
}
use voucher_management_deskt.Database.Action.{
  Action, ◌>>=◌, ◌>>◌, modify, pure, raise, gets, runtime_error, row_disappeared,
}

-- the tuples of `changes`; the field's name is the constructor of the values
pub record Change : Type 0 where
  pub voucher_id : ℕ
  pub previous_value : Observed
  pub new_value : Observed

abbrev changed : ℕ → Bool → Observed → Observed → List Change → List Change
changed k same old new rest =
    if same then rest else record { voucher_id = k; previous_value = old; new_value = new } ∷ rest

-- the loop over OBSERVED_FIELDS
pub changes_of : ℕ → Voucher → Voucher → List Change
changes_of k old new =
    changed k (eqb old.authorized_guest_count new.authorized_guest_count)
      (guest_count old.authorized_guest_count) (guest_count new.authorized_guest_count)
      (changed k (opt_text_eqb old.activated_at new.activated_at) (activated old.activated_at)
        (activated new.activated_at)
        (changed k (opt_text_eqb old.expires_at new.expires_at) (expires old.expires_at)
          (expires new.expires_at)
          (changed k (bool_eqb old.expired new.expired) (is_expired old.expired)
            (is_expired new.expired)
            (changed k (bool_eqb old.expiry_observed new.expiry_observed)
              (is_expiry_observed old.expiry_observed) (is_expiry_observed new.expiry_observed)
              (changed k (bool_eqb old.present_on_controller new.present_on_controller)
                (is_present old.present_on_controller) (is_present new.present_on_controller)
                [])))))

module _ (cal : Calendar) (c : ℕ) (observed_at : String) where
  -- `voucher.quota or None`
  abbrev pub limit_of : ℕ → Option ℕ
  limit_of quota = if eqb quota 0 then none else some quota

  -- the arguments of the call of `upsert_voucher`
  pub values_of : ApiVoucher → UpsertValues
  values_of v = record {
    controller_id = c;
    unifi_id = v.id;
    code = v.code;
    name = v.recipient;
    created_at = iso_from_epoch cal v.create_time;
    imported_at = observed_at;
    duration_minutes = some v.duration_minutes;
    authorized_guest_limit = limit_of v.quota;
    authorized_guest_count = v.used;
    activated_at = iso_from_epoch cal v.start_time;
    expires_at = iso_from_epoch cal v.end_time;
    expired = v.status == "EXPIRED";
    data_limit_mb = v.data_mb;
    download_limit_kbps = v.down_kbps;
    upload_limit_kbps = v.up_kbps;
    last_synced_at = observed_at;
  }

  compare_row : ℕ → Voucher → Option Voucher → Action (List Change)
  compare_row k old none = raise (runtime_error row_disappeared)
  compare_row k old (some row) = pure (changes_of k old row)

  observe : ℕ → Option Voucher → Action (List Change)
  unfolding compare_row
  observe k none = pure []
  observe k (some old) = do row ← gets (λ db. find_by (has_id k) db.vouchers); compare_row k old row

  -- the first loop; `previous` holds the controller's rows before the transaction
  pub persist_vouchers : List Voucher → List ApiVoucher → Action (List Change)
  unfolding values_of observe
  persist_vouchers previous [] = pure []
  persist_vouchers previous (v ∷ vs) = do
    k ← upsert_voucher (values_of v)
    found ← observe k (find_by (λ r. r.unifi_id == v.id) previous)
    rest ← persist_vouchers previous vs
    pure (found ++ rest)

  pub confirmed_absent_row : Voucher → Voucher
  confirmed_absent_row v = record v {
    present_on_controller = false;
    missing_observation_count = 0;
    missing_since = none;
    last_synced_at = observed_at;
  }

  pub missing_row : ℕ → Voucher → Voucher
  missing_row n v = record v {
    missing_observation_count = n;
    missing_since = coalesce v.missing_since (some observed_at);
    last_synced_at = observed_at;
  }

  abbrev is_managed_intent : EventType → Bool
  is_managed_intent t = is_delete_requested t || is_revoke_requested t

  -- the branch of a voucher whose absence a direct read has confirmed
  pub confirm_absence : Voucher → Action (List Change)
  unfolding confirmed_absent_row
  confirm_absence old = do
    modify
        (λ db. record db { vouchers = update_by (has_id old.id) confirmed_absent_row db.vouchers })
    managed ← gets (has_event is_managed_intent old.id)
    if managed
        then pure tt
        else insert_event old.id controller_deleted observed_at unifi none (
            some (
              ("confirmation_source", text "direct_uuid_not_found")
              ∷ ("operator_reason_available", flag false)
              ∷ []))
    pure (
        record {
          voucher_id = old.id;
          previous_value = is_present true;
          new_value = is_present false;
        }
        ∷ [])

  -- a row that the list omits: a suspicion, unless its absence is confirmed
  pub omit_row : List String → Voucher → Action (List Change)
  unfolding confirm_absence missing_row
  omit_row absent old =
      if elem ◌==◌ old.unifi_id absent
      then confirm_absence old
      else (modify (λ db. record db {
        vouchers =
            update_by (has_id old.id) (missing_row (old.missing_observation_count + 1)) db.vouchers;
      })
          >> pure [])

  -- the loop over `previous.items()`
  pub omit_rows : List String → List String → List Voucher → Action (List Change)
  unfolding omit_row
  omit_rows seen absent [] = pure []
  omit_rows seen absent (old ∷ rest) = do
    found ←
        (if elem ◌==◌ old.unifi_id seen || not old.present_on_controller
          then pure []
          else omit_row absent old)
    more ← omit_rows seen absent rest
    pure (found ++ more)
