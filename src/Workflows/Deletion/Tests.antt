-- ===== src/Workflows/Deletion/Tests.antt =====
-- Runs of a deletion (workflows.py).
use voucher_management_deskt.Database.Rows.{not_printed}
use voucher_management_deskt.Workflows.Deletion.Safety.{deleted_are_hidden}
use voucher_management_deskt.Models.{ApiVoucher}
use voucher_management_deskt.Samples.{first_voucher, second_voucher}
use voucher_management_deskt.Workflows.Remote.{UniFi, answer, fail, api_error}
use voucher_management_deskt.Prelude.{
  List, ◌≡◌, none, [], ◌∷◌, some, any_by, elem, ◌==◌, false, refl,
}
use voucher_management_deskt.Workflows.Deletion.{
  DeleteOutcome, LocalFacts, delete_vouchers_and_refresh, ids_of,
}

abbrev both : List ApiVoucher
both = first_voucher ∷ second_voucher ∷ []

-- the list still holds the deleted voucher
abbrev stale : UniFi
stale = record {
  on_list = λ log. answer both;
  on_get = λ log u. answer first_voucher;
  on_create = λ log p. fail api_error;
  on_delete = λ log ids. answer tt;
}

abbrev failing : UniFi
failing = record stale { on_delete = λ log ids. fail api_error }

abbrev facts : LocalFacts
facts = record {
  stats_by_code = λ c. none;
  historically_used_ids = "b" ∷ [];
  local_print_states = λ u. some not_printed;
  aligned_ids = "a" ∷ [];
  exceptionally_deletable_ids = [];
}

deleted_are_hidden_example :
    (o : DeleteOutcome) × ((delete_vouchers_and_refresh stale both (first_voucher ∷ []) []).0
      ≡ answer o)
    × (any_by (λ (v : ApiVoucher). elem ◌==◌ v.id (ids_of (first_voucher ∷ []))) o.vouchers ≡ false)
deleted_are_hidden_example = deleted_are_hidden stale both (first_voucher ∷ []) [] refl (λ h. cc)
