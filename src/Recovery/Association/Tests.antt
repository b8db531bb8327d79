-- ===== src/Recovery/Association/Tests.antt =====
-- A voucher of the sample database is associated with the intent to create one.
use voucher_management_deskt.Database.Queries.{insert_event}
use voucher_management_deskt.Database.Created.{
  mark_application_created_vouchers, mark_rows, marked_row,
}
use voucher_management_deskt.Database.Rows.{Db}
use voucher_management_deskt.Recovery.Intent.{
  intent_payload, normalized, load_pending_create_intent, decode, lower, is_digest, all_hex,
  optional_natural,
}
use voucher_management_deskt.Json.{obj, find}
use voucher_management_deskt.Prelude.{
  List, false, ◌≡◌, ℕ, ◌∷◌, [], clean_ids, strip, from_keys, refl,
}
use voucher_management_deskt.Recovery.Association.{
  confirm_action, associate, log_each, intent_of, confirm_pending_create_intent,
}
use voucher_management_deskt.Recovery.Marker.{holds, Marker, missing_file, ids_from, text_from}
use voucher_management_deskt.Database.Action.{Result, ok, for_each, transaction}
use voucher_management_deskt.Samples.{sample_db}
use voucher_management_deskt.Recovery.Intent.Tests.{intent}
use voucher_management_deskt.UnifiApi.Pages.Tests.{python}

abbrev marker_file : Marker
marker_file = holds (obj (intent_payload (normalized intent)))

abbrev outcome : Result (List ℕ) × Db × Marker
outcome =
    confirm_pending_create_intent python 1 ("a" ∷ []) "2026-01-03" "ada" marker_file false sample_db

-- the run is not one that raises
associated : (outcome.0 ≡ ok (1 ∷ [])) × (outcome.2 ≡ missing_file)
unfolding confirm_pending_create_intent confirm_action associate log_each intent_of
    load_pending_create_intent decode normalized lower is_digest all_hex optional_natural ids_from
    text_from find clean_ids strip from_keys mark_application_created_vouchers mark_rows marked_row
    for_each insert_event transaction
associated = (refl, refl)
