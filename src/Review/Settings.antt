-- ===== src/Review/Settings.antt =====
-- The table `settings` of database.py, and the thresholds in days that security_revocation.py and
-- operational_alerts.py keep there.
use voucher_management_deskt.Prelude.{
  Option, String, some, List, ℕ, if◌then◌else◌, none, find_by, not, any_by, ◌==◌, leb, update_by,
  ◌&&◌, ◌++◌, ◌∷◌, [],
}
use mathlib.Core.Option
use voucher_management_deskt.Json.{Python, ℤ, pos}
use voucher_management_deskt.Calendar.{Calendar, normalize_now}
use voucher_management_deskt.Database.Action.{Result, ok, err, value_error, bad_days}

pub record Setting : Type 0 where
  pub key : String
  pub value : String
  pub updated_at : String

-- `SELECT value FROM settings WHERE key=?`
abbrev pub value_of : String → List Setting → Option String
value_of k rows = Option.map (λ (s : Setting). s.value) (find_by (λ (s : Setting). s.key == k) rows)

-- `INSERT ... ON CONFLICT(key) DO UPDATE`
pub put : String → String → String → List Setting → List Setting
put k v stamp rows =
    if any_by (λ (s : Setting). s.key == k) rows
    then update_by (λ (s : Setting). s.key == k) (λ s. record s { value = v; updated_at = stamp })
        rows
    else rows ++ record { key = k; value = v; updated_at = stamp } ∷ []

abbrev in_days : Option ℤ → Option ℕ
in_days (some (pos n)) = if leb 1 n && leb n 3650 then some n else none
in_days _ = none

module _ (py : Python) where
  abbrev int_of_value : Option String → Option ℤ
  int_of_value none = none
  int_of_value (some s) = py.int_of_text s

  -- `security_revoke_days` and `unprinted_warning_days`, each with its key
  pub days_of : String → List Setting → Option ℕ
  days_of k rows = in_days (int_of_value (value_of k rows))

abbrev stored : String → String → ℕ → Result String → List Setting → Result ℕ × List Setting
stored k text days (err e) rows = (err e, rows)
stored k text days (ok stamp) rows = (ok days, put k text stamp rows)

-- `set_security_revoke_days` and `set_unprinted_warning_days`; `text` is `str(days)`
pub set_days :
    Calendar → String → (ℕ → String) → ℕ → String → List Setting → Result ℕ × List Setting
unfolding put
set_days cal k str days now rows =
    if not (leb 1 days && leb days 3650)
    then (err (value_error bad_days), rows)
    else stored k (str days) days (normalize_now cal now) rows
