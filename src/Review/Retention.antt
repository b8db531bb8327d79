-- ===== src/Review/Retention.antt =====
-- retention.py: the policy, the candidates, and the archiving that this release refuses. The row of the
-- policy is an `Option`, since its table holds one row at most.
use voucher_management_deskt.Database.Action.{
  Result, err, value_error, runtime_error, ok, no_retention_policy, bad_timestamp, bad_days,
  minimization_disabled,
}
use voucher_management_deskt.Prelude.{
  Bool, String, List, ℕ, Option, false, not, if◌then◌else◌, some, or_empty, none, is_some, ◌&&◌,
  is_nil, filter_by, ◌==◌, leb, eqb, [], from_keys, map,
}
use voucher_management_deskt.Database.Rows.{Voucher, Db, is_not_printed}
use voucher_management_deskt.Review.Settings.{Setting, put, value_of}
use voucher_management_deskt.Review.Queries.{
  Clock, of_controller, is_joined, joined_name, controller_name, sort_by,
}
use voucher_management_deskt.Database.Queries.{has_verified_print, is_archived}
use voucher_management_deskt.Calendar.{Calendar, normalize_now}

-- `protect_used` and `protect_printed` are 1 in every row, by a CHECK
pub record RetentionPolicy : Type 0 where
  pub unused_unprinted_days : ℕ
  pub updated_at : String

pub record RetentionCandidate : Type 0 where
  pub voucher_id : ℕ
  pub controller_name : String
  pub recipient : String
  pub created_at : String
  pub imported_at : String
  pub expires_at : String
  pub age_basis : String
  pub last_synced_at : String

-- the row of the policy, and the table of settings
pub record Store : Type 0 where
  pub policy : Option RetentionPolicy
  pub settings : List Setting

abbrev or_default : Option RetentionPolicy → String → Option RetentionPolicy
or_default none stamp = some (record { unused_unprinted_days = 180; updated_at = stamp })
or_default (some p) stamp = some p

abbrev with_default : Result String → Store → Result (Unit {0}) × Store
with_default (err e) s = (err e, s)
with_default (ok stamp) s = (ok tt, record s { policy = or_default s.policy stamp })

-- `ensure_retention_policy`, without the policy that it returns
pub ensure_retention_policy : Calendar → String → Store → Result (Unit {0}) × Store
ensure_retention_policy cal now s = with_default (normalize_now cal now) s

abbrev set_policy : ℕ → String → Result (Unit {0}) × Store → Result (Unit {0}) × Store
set_policy days stamp (err e, s) = (err e, s)
set_policy days stamp (ok a, s) = (
  ok tt,
  record {
    policy = some (record { unused_unprinted_days = days; updated_at = stamp });
    settings = put "retention_unused_unprinted_days_configured" "1" stamp s.settings;
  },
)

abbrev updated : Calendar → ℕ → Result String → Store → Result (Unit {0}) × Store
updated cal days (err e) s = (err e, s)
updated cal days (ok stamp) s = set_policy days stamp (ensure_retention_policy cal stamp s)

-- `update_retention_days`, without the policy that it returns
pub update_retention_days : Calendar → ℕ → String → Store → Result (Unit {0}) × Store
update_retention_days cal days now s =
    if not (leb 1 days && leb days 3650)
    then (err (value_error bad_days), s)
    else updated cal days (normalize_now cal now) s

abbrev is_one : Option String → Bool
is_one none = false
is_one (some v) = v == "1"

pub retention_days_configured : Store → Bool
retention_days_configured s =
    is_one (value_of "retention_unused_unprinted_days_configured" s.settings)

-- `COALESCE(v.created_at, v.imported_at)`
abbrev pub age_basis_of : Voucher → String
age_basis_of v = if is_some v.created_at then or_empty v.created_at else v.imported_at

module _ (clock : Clock) where
  unfoldable pub is_retention_candidate : Db → String → Option ℕ → Voucher → Bool
  is_retention_candidate db cutoff c v =
      not (is_archived v)
      && not v.present_on_controller
      && v.usage_observed
      && not v.ever_used
      && eqb v.authorized_guest_count 0
      && not v.expired
      && not (is_some v.expires_at)
      && is_some v.alignment_completed_at
      && is_not_printed v.print_state
      && not (has_verified_print v.id db)
      && clock.text_le (age_basis_of v) cutoff
      && of_controller c v
      && is_joined db v

  abbrev retained_of : Db → Voucher → RetentionCandidate
  retained_of db v = record {
    voucher_id = v.id;
    controller_name = controller_name (joined_name db v);
    recipient = v.name;
    created_at = or_empty v.created_at;
    imported_at = v.imported_at;
    expires_at = or_empty v.expires_at;
    age_basis = age_basis_of v;
    last_synced_at = v.last_synced_at;
  }

  unfoldable pub retention_rows : Db → String → Option ℕ → List Voucher
  retention_rows db cutoff c =
      sort_by (λ v w. not (clock.text_le (age_basis_of w) (age_basis_of v)))
        (filter_by (is_retention_candidate db cutoff c) db.vouchers)

  abbrev rows_from : Db → Option ℕ → Option String → Result (List RetentionCandidate)
  rows_from db c none = err (value_error bad_timestamp)
  rows_from db c (some cutoff) = ok (map (retained_of db) (retention_rows db cutoff c))

  abbrev rows_for :
      Db → String → Option ℕ → Option RetentionPolicy → Result (List RetentionCandidate)
  rows_for db now c none = err (runtime_error no_retention_policy)
  rows_for db now c (some p) = rows_from db c (clock.cutoff now p.unused_unprinted_days)

  abbrev listed :
      Db → String → Option ℕ → Result (Unit {0}) × Store → Result (List RetentionCandidate) × Store
  listed db now c (err e, s) = (err e, s)
  listed db now c (ok a, s) =
      (if retention_days_configured s then rows_for db now c s.policy else ok [], s)

  -- `retention_candidates`, which creates the default policy
  pub retention_candidates :
      Calendar → Db → String → Option ℕ → Store → Result (List RetentionCandidate) × Store
  retention_candidates cal db now c s = listed db now c (ensure_retention_policy cal now s)

-- `archive_retention_candidates`: refused, unless nothing is asked for
pub archive_retention_candidates : List ℕ → Result (List ℕ × List ℕ)
archive_retention_candidates voucher_ids =
    if is_nil (from_keys eqb voucher_ids)
    then ok ([], [])
    else err (runtime_error minimization_disabled)

-- `retention_intro_seen`
pub retention_intro_seen : Store → Bool
retention_intro_seen s = is_one (value_of "retention_intro_seen" s.settings)

abbrev intro_stored : Result String → Store → Result (Unit {0}) × Store
intro_stored (err e) s = (err e, s)
intro_stored (ok stamp) s =
    (ok tt, record s { settings = put "retention_intro_seen" "1" stamp s.settings })

pub mark_retention_intro_seen : Calendar → String → Store → Result (Unit {0}) × Store
mark_retention_intro_seen cal now s = intro_stored (normalize_now cal now) s
