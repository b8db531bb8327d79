-- ===== src/Review/Alerts.antt =====
-- `unprinted_warning_candidates` of operational_alerts.py.
use voucher_management_deskt.Database.Action.{Result, err, ok, value_error, bad_timestamp}
use voucher_management_deskt.Database.Rows.{Db, Origin, Voucher, is_not_printed}
use voucher_management_deskt.Prelude.{
  String, List, Option, ℕ, Bool, not, filter_by, strip, false, ◌&&◌, [], or_empty, some, none, eqb,
  is_some, map,
}
use voucher_management_deskt.Review.Settings.{Setting, days_of}
use voucher_management_deskt.Review.Queries.{
  Clock, of_controller, is_joined, joined_name, controller_name, sort_by,
}
use voucher_management_deskt.Database.Queries.{has_verified_print, is_archived}
use voucher_management_deskt.Json.{Python}

pub record UnprintedWarningCandidate : Type 0 where
  pub voucher_id : ℕ
  pub controller_id : ℕ
  pub controller_name : String
  pub unifi_id : String
  pub recipient : String
  pub created_at : String
  pub last_seen_at : String
  pub last_synced_at : String
  pub origin : Origin

module _ (clock : Clock) where
  -- `created_at IS NOT NULL AND julianday(created_at) <= julianday(?)`
  abbrev created_until : String → Option String → Bool
  created_until cutoff none = false
  created_until cutoff (some t) = clock.julian_le t cutoff

  unfoldable pub is_unprinted_candidate : Db → String → Option ℕ → Voucher → Bool
  is_unprinted_candidate db cutoff c v =
      not (is_archived v)
      && v.present_on_controller
      && not v.expired
      && v.usage_observed
      && not v.ever_used
      && eqb v.authorized_guest_count 0
      && is_some v.alignment_completed_at
      && is_not_printed v.print_state
      && created_until cutoff v.created_at
      && not (has_verified_print v.id db)
      && of_controller c v
      && is_joined db v

  abbrev warning_of : Db → Voucher → UnprintedWarningCandidate
  warning_of db v = record {
    voucher_id = v.id;
    controller_id = v.controller_id;
    controller_name = controller_name (joined_name db v);
    unifi_id = v.unifi_id;
    recipient = strip v.name;
    created_at = or_empty v.created_at;
    last_seen_at = or_empty v.last_seen_at;
    last_synced_at = v.last_synced_at;
    origin = v.origin;
  }

  -- the oldest first; every candidate has a `julianday`
  abbrev created_before : Option String → Option String → Bool
  created_before (some s) (some t) = not (clock.julian_le t s)
  created_before _ _ = false

  unfoldable pub warning_rows : Db → String → Option ℕ → List Voucher
  warning_rows db cutoff c =
      sort_by (λ (v w : Voucher). created_before v.created_at w.created_at)
        (filter_by (is_unprinted_candidate db cutoff c) db.vouchers)

  abbrev warnings_from : Db → Option ℕ → Option String → Result (List UnprintedWarningCandidate)
  warnings_from db c none = err (value_error bad_timestamp)
  warnings_from db c (some cutoff) = ok (map (warning_of db) (warning_rows db cutoff c))

  abbrev warnings_within :
      Db → String → Option ℕ → Option ℕ → Result (List UnprintedWarningCandidate)
  warnings_within db now c none = ok []
  warnings_within db now c (some days) = warnings_from db c (clock.cutoff now days)

  pub unprinted_warning_candidates :
      Python → List Setting → Db → String → Option ℕ → Result (List UnprintedWarningCandidate)
  unprinted_warning_candidates py settings db now c =
      warnings_within db now c (days_of py "operational_unprinted_warning_days" settings)
