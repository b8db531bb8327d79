-- ===== src/History/Pending/Tests.antt =====
-- A descriptor of a pending print, written and read.
use voucher_management_deskt.Database.Action.{ok}
use voucher_management_deskt.Recovery.Marker.{holds}
use voucher_management_deskt.Prelude.{strip, is_space, ◌≡◌, true, refl, some}
use voucher_management_deskt.UnifiApi.Pages.Tests.{python}
use voucher_management_deskt.History.Samples.{platform, sample_pending}
use voucher_management_deskt.History.Pending.{
  load_pending_print, pending_json, is_audit_id, all_hex_or_dash, is_print_record,
}
use voucher_management_deskt.History.Pending.RoundTrip.{is_sound, load-pending_json}
use voucher_management_deskt.History.Values.{is_text, text_or_empty}
use voucher_management_deskt.Recovery.Intent.{is_digest, all_hex, lower}
use voucher_management_deskt.Json.{find, obj}

pub sample_pending_sound : is_sound python platform sample_pending ≡ true
unfolding is_audit_id all_hex_or_dash is_print_record is_text text_or_empty is_digest all_hex lower
    find strip is_space
sample_pending_sound = refl

sample_pending_read :
    load_pending_print python platform (
      holds
        (obj (pending_json sample_pending.state sample_pending.audit_id sample_pending.records)))
    ≡ ok (some sample_pending)
sample_pending_read = load-pending_json python platform sample_pending sample_pending_sound
