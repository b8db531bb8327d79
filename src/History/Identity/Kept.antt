-- ===== src/History/Identity/Kept.antt =====
-- The key behind the rows of history.py: no call on the identity rotates it or forgets its fingerprint.
use voucher_management_deskt.Database.Action.{ok, Result-cases}
use voucher_management_deskt.Prelude.{
  String, Bool, ◌≡◌, arith, true, is_empty, Bool-cases, inl, false, inr, ◌⊎◌, eq_iff, refl,
  strip-strip, strip,
}
use voucher_management_deskt.History.Base.{Platform, Env, Disk, history_has_rows}
use voucher_management_deskt.History.Identity.{
  ensure_ready, usable_secret, adopt_present_secret, configure_secret, adopt, set_key,
  save_fingerprint, replace_key, is_usable, correlation_digest,
}

-- the calls on the identity; `configure_secret` with the fingerprint that the settings hold
pub data IdentityCall : Type 0 where
  on_ensure_ready on_secret : IdentityCall
  on_adopt : String → IdentityCall
  on_configure : String → Bool → IdentityCall
  on_correlation : String → String → IdentityCall

module _ (os : Platform) (env : Env) where
  -- what a call leaves on disk
  unfoldable pub after_call : IdentityCall → Disk → Disk
  after_call on_ensure_ready d = (ensure_ready os env d).1
  after_call on_secret d = (usable_secret os env d).1
  after_call (on_adopt confirmation) d = (adopt_present_secret os env confirmation d).1
  after_call (on_configure secret replace) d =
      (configure_secret os env secret d.fingerprint replace d).1
  after_call (on_correlation namespace value) d = (correlation_digest os env namespace value d).1

  pub ensure_ready_keeps :
      (d : Disk) → history_has_rows d.journal ≡ true → (ensure_ready os env d).1 ≡ d
  unfolding ensure_ready
  ensure_ready_keeps d h = ground arith

  pub usable_secret_keeps :
      (d : Disk) → history_has_rows d.journal ≡ true → (usable_secret os env d).1 ≡ d
  unfolding usable_secret
  usable_secret_keeps d h = elim (Bool-cases (is_usable os d)) [
    | inl u ↦ ground arith
    | inr u ↦ elim (Result-cases (ensure_ready os env d).0) [
      | inl (a, r) ↦ ground (arith, ensure_ready_keeps d h)
      | inr (e, r) ↦ ground (arith, ensure_ready_keeps d h)
    ]
  ]

  abbrev IsFramed : Disk → Disk → Type 0
  IsFramed d d' = (d'.journal ≡ d.journal) × (d'.pending ≡ d.pending)

  set_key-IsFramed : (secret : String) (d : Disk) → IsFramed d (set_key os env secret d).1
  unfolding set_key
  set_key-IsFramed secret d = ground arith

  save_fingerprint-IsFramed : (fp : String) (d : Disk) → IsFramed d (save_fingerprint os env fp d).1
  unfolding save_fingerprint
  save_fingerprint-IsFramed fp d = ground arith

  replace_key-IsFramed : (d : Disk) → IsFramed d (replace_key os env d).1
  unfolding replace_key set_key save_fingerprint
  replace_key-IsFramed d = ground arith

  pub ensure_ready-IsFramed : (d : Disk) → IsFramed d (ensure_ready os env d).1
  unfolding ensure_ready save_fingerprint
  ensure_ready-IsFramed d = ground (arith, replace_key-IsFramed d)

  pub usable_secret-IsFramed : (d : Disk) → IsFramed d (usable_secret os env d).1
  unfolding usable_secret
  usable_secret-IsFramed d = elim (Bool-cases (is_usable os d)) [
    | inl u ↦ ground arith
    | inr u ↦ elim (Result-cases (ensure_ready os env d).0) [
      | inl (a, r) ↦ ground (arith, ensure_ready-IsFramed d)
      | inr (e, r) ↦ ground (arith, ensure_ready-IsFramed d)
    ]
  ]

  -- Once `_secret` has returned a key, it returns it again, and changes nothing.
  pub usable_secret_again :
      (d : Disk) {secret : String}
      → (usable_secret os env d).0 ≡ ok secret
      → usable_secret os env (usable_secret os env d).1 ≡ (ok secret, (usable_secret os env d).1)
  unfolding usable_secret
  usable_secret_again d h = elim (Bool-cases (is_usable os d)) [
    | inl u ↦ ground arith
    | inr u ↦ elim (Result-cases (ensure_ready os env d).0) [
      | inl (a, r) ↦ elim (Bool-cases (is_usable os (ensure_ready os env d).1)) [
        | inl w ↦ ground arith
        | inr w ↦ absurd (ground arith)
      ]
      | inr (e, r) ↦ absurd (ground arith)
    ]
  ]

  -- A key that `_secret` returns is the stored one, with the recorded fingerprint, and the call has
  -- changed neither the journal nor the marker of a pending print.
  pub usable_secret-ok :
      (d : Disk) {secret : String}
      → (usable_secret os env d).0 ≡ ok secret
      → ((usable_secret os env d).1.secret ≡ secret)
        × ((usable_secret os env d).1.fingerprint ≡ os.fingerprint secret)
        × ((usable_secret os env d).1.journal ≡ d.journal)
        × ((usable_secret os env d).1.pending ≡ d.pending)
  unfolding usable_secret
  usable_secret-ok d h = elim (Bool-cases (is_usable os d)) [
    | inl u ↦ ground (arith, eq_iff (os.fingerprint d.secret) d.fingerprint)
    | inr u ↦ elim (Result-cases (ensure_ready os env d).0) [
      | inl (a, r) ↦
          let d' = (ensure_ready os env d).1 in
          ground (arith, ensure_ready-IsFramed d, eq_iff (os.fingerprint d'.secret) d'.fingerprint)
      | inr (e, r) ↦ ground (arith, ensure_ready-IsFramed d)
    ]
  ]

  correlation_digest_keeps :
      (namespace value : String) (d : Disk)
      → history_has_rows d.journal ≡ true
      → (correlation_digest os env namespace value d).1 ≡ d
  unfolding correlation_digest
  correlation_digest_keeps namespace value d h = elim (Result-cases (usable_secret os env d).0) [
    | inl (a, r) ↦ ground (arith, usable_secret_keeps d h)
    | inr (e, r) ↦ ground (arith, usable_secret_keeps d h)
  ]

  -- a recorded fingerprint is not overridden
  adopt_present_secret_keeps :
      (confirmation : String) (d : Disk)
      → is_empty d.fingerprint ≡ false
      → (adopt_present_secret os env confirmation d).1 ≡ d
  unfolding adopt_present_secret adopt
  adopt_present_secret_keeps confirmation d f = ground arith

  configure_secret_keeps :
      (secret : String) (replace : Bool) (d : Disk)
      → history_has_rows d.journal ≡ true
      → is_empty d.fingerprint ≡ false
      → let d' = (configure_secret os env secret d.fingerprint replace d).1 in
        (d'.fingerprint ≡ d.fingerprint)
        × ((d'.secret ≡ d.secret) ⊎ (os.fingerprint d'.secret ≡ d.fingerprint))
        × (d'.journal ≡ d.journal)
  unfolding configure_secret set_key
  configure_secret_keeps secret replace d h f =
      ground (arith, strip-strip secret, eq_iff d.fingerprint (os.fingerprint (strip secret)))

  -- With rows in the journal and a fingerprint in the settings, and with these settings handed to
  -- `configure_secret`, no call on the identity rotates it: the fingerprint stays, the key stays or
  -- gives way to one with that fingerprint, and the rows stay.
  pub after_call_keeps :
      (call : IdentityCall) (d : Disk)
      → history_has_rows d.journal ≡ true
      → is_empty d.fingerprint ≡ false
      → ((after_call call d).fingerprint ≡ d.fingerprint)
        × (((after_call call d).secret ≡ d.secret)
            ⊎ (os.fingerprint (after_call call d).secret ≡ d.fingerprint))
        × ((after_call call d).journal ≡ d.journal)
  unfolding after_call
  after_call_keeps on_ensure_ready d h f = rw (ensure_ready_keeps d h) (refl, inl refl, refl)
  after_call_keeps on_secret d h f = rw (usable_secret_keeps d h) (refl, inl refl, refl)
  after_call_keeps (on_adopt confirmation) d h f =
      rw (adopt_present_secret_keeps confirmation d f) (refl, inl refl, refl)
  after_call_keeps (on_configure secret replace) d h f = configure_secret_keeps secret replace d h f
  after_call_keeps (on_correlation namespace value) d h f =
      rw (correlation_digest_keeps namespace value d h) (refl, inl refl, refl)
