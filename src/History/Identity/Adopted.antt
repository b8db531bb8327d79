-- ===== src/History/Identity/Adopted.antt =====
-- `adopt_present_secret` of history.py, when it returns.
use voucher_management_deskt.Database.Action.{ok}
use voucher_management_deskt.Prelude.{
  String, is_empty, ◌≡◌, true, arith, refl, ◌⊎◌, eq_iff, strip, ap, sym, ◌∙◌,
}
use voucher_management_deskt.History.Base.{Platform, Env, Disk}
use voucher_management_deskt.History.Identity.{
  adopt_present_secret, adopt, save_fingerprint, identity_state, without_separators, is_ready,
  missing_fingerprint, ready, IdentityReason, missing_local_key, key_differs,
}

module _ (os : Platform) (env : Env) where
  -- the present key is the one of the fingerprint, and the key store is as it was
  abbrev pub IsAdopted : String → Disk → String → Disk → Type 0
  IsAdopted confirmation d fp d' =
      (is_ready (identity_state os d').reason ≡ true)
      × (fp ≡ os.fingerprint d.secret)
      × (d'.secret ≡ d.secret)
      × ((d' ≡ d)
          ⊎ ((d.fingerprint ≡ "")
              × (d'.fingerprint ≡ fp)
              × (os.lower (strip (without_separators confirmation)) ≡ fp)))

  is_empty→nil : (s : String) → is_empty s ≡ true → s ≡ ""
  is_empty→nil String.[] h = refl
  is_empty→nil (String.◌∷◌ c s) h = cc

  adopt-IsAdopted :
      (confirmation : String) (d : Disk) {fp : String}
      → (identity_state os d).reason ≡ missing_fingerprint
      → (adopt os env confirmation (identity_state os d) d).0 ≡ ok fp
      → IsAdopted confirmation d fp (adopt os env confirmation (identity_state os d) d).1
  unfolding adopt save_fingerprint identity_state
  adopt-IsAdopted confirmation d m h = ground (
    arith,
    is_empty→nil d.fingerprint,
    eq_iff (os.lower (strip (without_separators confirmation))) (os.fingerprint d.secret),
  )

  ready_fingerprint :
      (d : Disk)
      → (identity_state os d).reason ≡ ready
      → (identity_state os d).local_fingerprint ≡ os.fingerprint d.secret
  unfolding identity_state
  ready_fingerprint d r = ground arith

  adopts :
      (confirmation : String) (d : Disk)
      → (identity_state os d).reason ≡ missing_fingerprint
      → adopt_present_secret os env confirmation d
        ≡ adopt os env confirmation (identity_state os d) d
  unfolding adopt_present_secret
  adopts confirmation d r = ground arith

  by_reason :
      (confirmation : String) (d : Disk) {fp : String} (reason : IdentityReason)
      → (identity_state os d).reason ≡ reason
      → (adopt_present_secret os env confirmation d).0 ≡ ok fp
      → IsAdopted confirmation d fp (adopt_present_secret os env confirmation d).1
  unfolding adopt_present_secret
  by_reason confirmation d ready r h = ground (arith, ready_fingerprint d r)
  by_reason confirmation d missing_local_key r h = ground arith
  by_reason confirmation d missing_fingerprint r h =
      let e = adopts confirmation d r in
      rw e (adopt-IsAdopted confirmation d r (ap (λ p. p.0) (sym e) ∙ h))
  by_reason confirmation d key_differs r h = ground arith

  -- When `adopt_present_secret` returns, the identity is ready, the key is as it was, and the result is
  -- its fingerprint; and the disk is as it was, or no fingerprint was recorded and the one that the
  -- operator typed, that of the key, is recorded now.
  pub adopt_present_secret-ok :
      (confirmation : String) (d : Disk) {fp : String}
      → (adopt_present_secret os env confirmation d).0 ≡ ok fp
      → IsAdopted confirmation d fp (adopt_present_secret os env confirmation d).1
  adopt_present_secret-ok confirmation d h =
      by_reason confirmation d (identity_state os d).reason refl h
