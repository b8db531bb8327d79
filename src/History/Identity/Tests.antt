-- ===== src/History/Identity/Tests.antt =====
-- The identity of the print journal at concrete inputs.
use voucher_management_deskt.Database.Action.{ok}
use voucher_management_deskt.Prelude.{◌≡◌, strip, is_space, true, ◌⊎◌, refl}
use voucher_management_deskt.History.Base.{Disk, history_has_rows}
use voucher_management_deskt.History.Samples.{platform, working, disk}
use voucher_management_deskt.History.Identity.{
  adopt_present_secret, adopt, identity_state, save_fingerprint, without_separators,
}
use voucher_management_deskt.History.Identity.Kept.{
  IdentityCall, after_call, after_call_keeps, on_configure,
}
use voucher_management_deskt.History.Identity.Adopted.{IsAdopted, adopt_present_secret-ok}

abbrev other_key : IdentityCall
other_key = on_configure "fedcba9876543210" true

has_rows : history_has_rows disk.journal ≡ true
unfolding history_has_rows
has_rows = refl

after_call_keeps_example :
    ((after_call platform working other_key disk).fingerprint ≡ disk.fingerprint)
    × (((after_call platform working other_key disk).secret ≡ disk.secret)
        ⊎ (platform.fingerprint (after_call platform working other_key disk).secret
            ≡ disk.fingerprint))
    × ((after_call platform working other_key disk).journal ≡ disk.journal)
after_call_keeps_example = after_call_keeps platform working other_key disk has_rows refl

-- the settings have lost the fingerprint
abbrev without_fingerprint : Disk
without_fingerprint = record disk { fingerprint = "" }

adopted :
    (adopt_present_secret platform working "0123:4567:89ab:cdef" without_fingerprint).0
    ≡ ok "0123456789abcdef"
unfolding adopt_present_secret adopt identity_state save_fingerprint without_separators strip
    is_space history_has_rows
adopted = refl

adopt_present_secret-ok_example :
    IsAdopted platform working "0123:4567:89ab:cdef" without_fingerprint "0123456789abcdef"
      (adopt_present_secret platform working "0123:4567:89ab:cdef" without_fingerprint).1
adopt_present_secret-ok_example =
    adopt_present_secret-ok platform working "0123:4567:89ab:cdef" without_fingerprint adopted
