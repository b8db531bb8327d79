-- ===== src/Workflows/Creation/Tests.antt =====
-- Runs of a creation (workflows.py).
use voucher_management_deskt.Workflows.Creation.Visibility.{created_are_shown}
use voucher_management_deskt.Samples.{second_voucher, first_voucher}
use voucher_management_deskt.Prelude.{none, [], ◌∷◌, ◌≡◌, true, refl}
use voucher_management_deskt.Workflows.Creation.{
  CreateOutcome, create_vouchers_and_refresh, all_visible,
}
use voucher_management_deskt.Workflows.Remote.{UniFi, CreateParams, answer, fail, not_found}

abbrev params : CreateParams
params = record {
  recipient = "Ada";
  quantity = 1;
  expire_number = 1;
  expire_unit = 60;
  quota = 1;
  data_mb = none;
  down_mbps = none;
  up_mbps = none;
}

-- the POST is answered, but the list leaves its voucher out
abbrev omitting : UniFi
omitting = record {
  on_list = λ log. answer (second_voucher ∷ []);
  on_get = λ log u. fail not_found;
  on_create = λ log p. answer (first_voucher ∷ []);
  on_delete = λ log ids. answer tt;
}

created_are_shown_example :
    (o : CreateOutcome) × ((create_vouchers_and_refresh omitting [] params []).0 ≡ answer o)
    × (o.created ≡ first_voucher ∷ [])
    × (all_visible (first_voucher ∷ []) o.vouchers ≡ true)
created_are_shown_example =
    created_are_shown omitting [] (first_voucher ∷ []) params [] refl (λ h. cc)
