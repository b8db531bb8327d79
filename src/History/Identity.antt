-- ===== src/History/Identity.antt =====
-- The identity of the audit trail in history.py: `ensure_ready`, `identity_state`, `adopt_present_secret`,
-- `configure_secret`, `_secret` and the keyed digests.
pub mod Kept
pub mod Adopted
pub mod Tests
use voucher_management_deskt.Database.Action.{
  Result, ok, err, os_error, value_error, history_error, not_ascii, nothing_to_adopt,
  identity_unverified, missing_namespace, no_local_key, identity_unavailable, key_too_short,
  key_mismatch, wrong_confirmation, runtime_error, fingerprint_present,
}
use voucher_management_deskt.Prelude.{
  strip, Bool, String, not, true, if◌then◌else◌, eqb, ltb, is_empty, false, ◌||◌, leb, ◌&&◌, ◌==◌,
  length, codes,
}
use voucher_management_deskt.History.Base.{Platform, Env, Disk, Action, ◌>>>◌, history_has_rows}
use Prim.Native.Char.{code}
use Prim.Native.String.{◌++◌}

-- `str(confirmation).replace(":", "").replace(" ", "")`
unfoldable pub without_separators : String → String
without_separators String.[] = String.[]
without_separators (String.◌∷◌ c s) =
    let rest = without_separators s in
    if eqb (code c) b':' || eqb (code c) b' ' then rest else String.◌∷◌ c rest

pub data IdentityReason : Type 0 where
  ready missing_local_key missing_fingerprint key_differs : IdentityReason

pub record HistoryIdentityState : Type 0 where
  pub reason : IdentityReason
  pub expected_fingerprint : String
  pub local_fingerprint : String
  pub can_adopt_local_key : Bool

abbrev identity : IdentityReason → String → String → Bool → HistoryIdentityState
identity reason expected local can_adopt = record {
  reason = reason;
  expected_fingerprint = expected;
  local_fingerprint = local;
  can_adopt_local_key = can_adopt;
}

-- the field `ready`
abbrev pub is_ready : IdentityReason → Bool
is_ready ready = true
is_ready _ = false

-- `code.encode("ascii")` does not raise
unfoldable pub is_ascii : String → Bool
is_ascii String.[] = true
is_ascii (String.◌∷◌ c s) = leb (code c) 127 && is_ascii s

-- `_stable_identity`
unfoldable pub stable_identity : String → String → String
stable_identity site_id unifi_id =
    if is_empty (strip site_id) || is_empty (strip unifi_id)
    then ""
    else "site:" ++ strip site_id ++ "|voucher:" ++ strip unifi_id

module _ (os : Platform) where
  -- the test of `_secret`: a key is there, and the settings hold its fingerprint
  abbrev pub is_usable : Disk → Bool
  is_usable d =
      not (is_empty d.fingerprint)
      && not (is_empty d.secret)
      && os.fingerprint d.secret == d.fingerprint

  -- `_digest`
  unfoldable pub digest : String → String → Result String
  digest code secret =
      if is_ascii code then ok (os.hmac secret code) else err (value_error not_ascii)

  -- `_stable_digest`
  unfoldable pub stable_digest : String → String → String → String
  stable_digest site_id unifi_id secret =
      let identity = stable_identity site_id unifi_id in
      if is_empty identity then "" else os.hmac secret identity

  -- `identity_state`
  unfoldable pub identity_state : Disk → HistoryIdentityState
  identity_state d =
      let expected = os.lower (strip d.fingerprint) in
      let local = if is_empty d.secret then "" else os.fingerprint d.secret in
      if not (is_empty expected) && not (is_empty local) && local == expected
      then identity ready expected local false
      else if is_empty d.secret
      then identity missing_local_key expected "" false
      else if is_empty expected
      then identity missing_fingerprint "" local (history_has_rows d.journal)
      else identity key_differs expected local false

  -- `verified_identity_material`
  unfoldable pub verified_identity_material : Disk → Result (String × String)
  verified_identity_material d =
      let state = identity_state d in
      if is_ready state.reason
        && not (is_empty d.secret)
        && os.fingerprint d.secret == state.expected_fingerprint
      then ok (state.expected_fingerprint, d.secret)
      else err (history_error identity_unverified)

  module _ (env : Env) where
    -- `HistoryKeyStore.set`
    unfoldable pub set_key : String → Action (Unit {0})
    set_key secret d =
        if ltb (length (codes (strip secret))) 16
        then (err (runtime_error key_too_short), d)
        else if env.key_fails
        then (err os_error, d)
        else (ok tt, record d { secret = strip secret })

    -- `settings["history_key_fingerprint"] = ...` and `settings_store.save`
    unfoldable pub save_fingerprint : String → Action (Unit {0})
    save_fingerprint fp d =
        if env.settings_fail then (err os_error, d) else (ok tt, record d { fingerprint = fp })

    -- `_new_secret` and the lines after it
    unfoldable pub replace_key : Action Bool
    replace_key d =
        (set_key env.new_secret
            >>> (λ _. save_fingerprint (os.fingerprint env.new_secret))
            >>> λ _ d'. (ok true, record d' { recovered_key = not (is_empty d.fingerprint) }))
          d

    unfoldable pub ensure_ready : Action Bool
    ensure_ready d =
        if is_usable d
        then (ok true, d)
        else if not (is_empty d.secret)
            && is_empty d.fingerprint
            && not (history_has_rows d.journal)
        then (save_fingerprint (os.fingerprint d.secret) >>> λ _ d'. (ok true, d')) d
        else if history_has_rows d.journal
        then (ok false, d)
        else replace_key d

    -- `_secret`
    unfoldable pub usable_secret : Action String
    usable_secret d =
        if is_usable d
        then (ok d.secret, d)
        else (ensure_ready >>> λ _ d'.
              (if is_usable d' then ok d'.secret else err (history_error identity_unavailable), d'))
            d

    -- `correlation_digest`
    unfoldable pub correlation_digest : String → String → Action String
    correlation_digest namespace value d =
        if is_empty (strip namespace)
        then (err (value_error missing_namespace), d)
        else (usable_secret >>> λ secret d'.
              (ok (os.hmac secret (strip namespace ++ "\n" ++ value)), d'))
            d

    -- `adopt_present_secret` once the state is known to be `missing_fingerprint`
    unfoldable pub adopt : String → HistoryIdentityState → Action String
    adopt confirmation state d =
        if not state.can_adopt_local_key || is_empty state.local_fingerprint
        then (err (value_error nothing_to_adopt), d)
        else if not (os.lower (strip (without_separators confirmation)) == state.local_fingerprint)
        then (err (value_error wrong_confirmation), d)
        else if not (is_empty d.fingerprint)
        then (err (value_error fingerprint_present), d)
        else (save_fingerprint state.local_fingerprint >>> λ _ d'. (
          let verified = identity_state d' in
              if is_ready verified.reason
              then ok verified.local_fingerprint
              else err (history_error identity_unverified),
          d',
        ))
            d

    unfoldable pub adopt_present_secret : String → Action String
    adopt_present_secret confirmation d =
        let state = identity_state d in
        elim state.reason [
          | ready ↦ (ok state.local_fingerprint, d)
          | missing_local_key ↦ (err (value_error no_local_key), d)
          | key_differs ↦ (err (value_error key_mismatch), d)
          | missing_fingerprint ↦ adopt confirmation state d
        ]

    -- `configure_secret`; `existing` is the fingerprint in the settings that the caller hands over
    unfoldable pub configure_secret : String → String → Bool → Action (Unit {0})
    configure_secret secret existing replace d =
        let key = strip secret in
        let fp = os.fingerprint key in
        let changes = not (is_empty existing) && not (existing == fp) in
        if ltb (length (codes key)) 16
        then (err (value_error key_too_short), d)
        else if changes && history_has_rows d.journal
        then (err (value_error key_mismatch), d)
        else if changes && not replace
        then (err (value_error key_mismatch), d)
        else (set_key key >>> λ _.
              if is_empty existing || not (existing == fp) then save_fingerprint fp else λ d'.
              (ok tt, d'))
            d
