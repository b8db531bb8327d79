-- ===== src/Workflows/Creation.antt =====
-- `create_vouchers_and_refresh` of workflows.py: one POST, and a list that never hides its result.
pub mod Visibility
mod Tests
use voucher_management_deskt.Models.{ApiVoucher, has_voucher, merge_by_id}
use voucher_management_deskt.Prelude.{
  List, [], filter_by, Option, Bool, ℕ, not, count_by, all_by, if◌then◌else◌, none, true, is_nil,
  false, some,
}
use voucher_management_deskt.Workflows.Remote.{
  Remote, UniFi, Call, Reply, CreateParams, answer, RemoteError, attempt, call_create, pure,
  is_create, call_list, fail, raise, mutation_uncertain, is_api_error,
}

-- the fields that this function gives; the others keep their defaults
pub record CreateOutcome : Type 0 where
  pub created : List ApiVoucher
  pub vouchers : List ApiVoucher
  pub refresh_error : Option RemoteError
  pub uncertain_error : Bool
  pub snapshot_complete : Bool
  pub reconciliation_required : Bool

abbrev pub missing_created : List ApiVoucher → List ApiVoucher → List ApiVoucher
missing_created created refreshed =
    filter_by (λ (v : ApiVoucher). not (has_voucher v.id refreshed)) created

-- the list after an uncertain POST
pub after_uncertain : List ApiVoucher → Reply (List ApiVoucher) → Remote CreateOutcome
after_uncertain cached (answer refreshed) = pure (record {
  created = [];
  vouchers = refreshed;
  refresh_error = none;
  uncertain_error = true;
  snapshot_complete = true;
  reconciliation_required = false;
})
after_uncertain cached (fail e) =
    if is_api_error e
    then pure (record {
      created = [];
      vouchers = cached;
      refresh_error = some e;
      uncertain_error = true;
      snapshot_complete = true;
      reconciliation_required = false;
    })
    else raise e

-- the list after a POST that succeeded
pub after_created :
    List ApiVoucher → List ApiVoucher → Reply (List ApiVoucher) → Remote CreateOutcome
after_created cached created (answer refreshed) = pure (
    if is_nil (missing_created created refreshed)
    then record {
      created = created;
      vouchers = refreshed;
      refresh_error = none;
      uncertain_error = false;
      snapshot_complete = true;
      reconciliation_required = false;
    }
    else record {
      created = created;
      vouchers = merge_by_id refreshed (missing_created created refreshed);
      refresh_error = none;
      uncertain_error = false;
      snapshot_complete = false;
      reconciliation_required = true;
    })
after_created cached created (fail e) =
    if is_api_error e
    then pure (record {
      created = created;
      vouchers = merge_by_id cached created;
      refresh_error = some e;
      uncertain_error = false;
      snapshot_complete = false;
      reconciliation_required = true;
    })
    else raise e

module _ (unifi : UniFi) (cached : List ApiVoucher) where
  -- `except UniFiMutationUncertain` around the POST
  pub after_post : Reply (List ApiVoucher) → Remote CreateOutcome
  unfolding after_created after_uncertain
  after_post (answer created) = attempt (call_list unifi) (after_created cached created)
  after_post (fail mutation_uncertain) = attempt (call_list unifi) (after_uncertain cached)
  after_post (fail e) = raise e

  -- `is_nominal` is no field of `CreateParams`: it is taken out before the POST
  pub create_vouchers_and_refresh : CreateParams → Remote CreateOutcome
  unfolding after_post
  create_vouchers_and_refresh params = attempt (call_create unifi params) after_post

-- How many POSTs a log holds.
abbrev pub posts : List Call → ℕ
posts log = count_by is_create log

abbrev pub all_visible : List ApiVoucher → List ApiVoucher → Bool
all_visible created shown = all_by (λ (v : ApiVoucher). has_voucher v.id shown) created
