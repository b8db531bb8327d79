-- ===== src/Database/Created/Tests.antt =====
-- A creation that is marked in the sample database (database.py).
use voucher_management_deskt.Samples.{sample_db}
use voucher_management_deskt.Database.Action.{is_ok}
use voucher_management_deskt.Database.Created.{mark_application_created_vouchers, mark_rows}
use voucher_management_deskt.Prelude.{
  clean_ids, strip, from_keys, elem, ◌∷◌, ◌==◌, [], true, ◌≡◌, refl, arith,
}
use voucher_management_deskt.Database.WellFormed.{IsWellFormed}

sample_db-IsWellFormed : IsWellFormed sample_db.vouchers
sample_db-IsWellFormed = record { ascending = ground arith; keys_unique = ground arith }

returns :
    is_ok (mark_application_created_vouchers 1 (" a" ∷ []) true "2026-01-03" sample_db).0 ≡ true
unfolding mark_application_created_vouchers mark_rows clean_ids strip from_keys
returns = refl

listed : elem ◌==◌ "a" (clean_ids (" a" ∷ [])) ≡ true
unfolding clean_ids strip from_keys
listed = refl
