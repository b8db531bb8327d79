-- ===== src/Recovery/Intent/Tests.antt =====
-- The intent to create one voucher is written and read.
use voucher_management_deskt.Json.{obj, pos, negsuc, find}
use voucher_management_deskt.Recovery.Marker.{holds, missing_file, Marker, ids_from, text_from}
use voucher_management_deskt.Prelude.{
  false, ◌∷◌, [], none, ◌≡◌, some, true, ◌⊎◌, clean_ids, strip, from_keys, refl,
}
use voucher_management_deskt.Database.Action.{Error, err, ok, runtime_error, invalid_marker}
use voucher_management_deskt.Recovery.Intent.{
  IntentArguments, decode, optional_natural, write_pending_create_intent, intent_invalid,
  normalized, lower, is_digest, all_hex, load_pending_create_intent, intent_payload,
}
use voucher_management_deskt.UnifiApi.Pages.Tests.{python}
use voucher_management_deskt.Recovery.Intent.RoundTrip.{
  write-load_pending_create_intent, IsReadBack,
}

abbrev pub intent : IntentArguments
intent = record {
  controller_id = pos 1;
  site_id = " site";
  requested_at = "2026-01-03";
  baseline_ids = "b" ∷ " b " ∷ "" ∷ [];
  quantity = pos 1;
  recipient_digest = "0123456789ABCDEF0123456789abcdef0123456789abcdef0123456789abcdef";
  duration_minutes = pos 60;
  quota = pos 1;
  data_mb = none;
  down_kbps = some (pos 1000);
  up_kbps = none;
  is_nominal = true;
}

write-load_pending_create_intent_example :
    ((e : Error) × (write_pending_create_intent false intent missing_file ≡ (err e, missing_file)))
    ⊎ ((missing_file ≡ missing_file)
        × (marker' : Marker) × (write_pending_create_intent false intent missing_file
            ≡ (ok tt, marker'))
        × IsReadBack python intent marker')
write-load_pending_create_intent_example =
    write-load_pending_create_intent python false intent missing_file

-- the run is not one that raises
written :
    write_pending_create_intent false intent missing_file
    ≡ (ok tt, holds (obj (intent_payload (normalized intent))))
unfolding write_pending_create_intent intent_invalid normalized lower is_digest all_hex clean_ids
    strip from_keys
written = refl

-- an intent with a negative limit is written, and cannot be loaded
abbrev negative_intent : IntentArguments
negative_intent = record intent { data_mb = some (negsuc 0) }

negative_refused :
    (marker : Marker) × (write_pending_create_intent false negative_intent missing_file
      ≡ (ok tt, marker))
    × (load_pending_create_intent python marker ≡ err (runtime_error invalid_marker))
unfolding write_pending_create_intent intent_invalid normalized lower is_digest all_hex clean_ids
    strip from_keys load_pending_create_intent decode optional_natural ids_from text_from find
negative_refused = (_, refl, refl)
