-- ===== src/History/Steps/Tests.antt =====
-- The print journal after concrete sequences of calls.
use voucher_management_deskt.Json.{obj}
use voucher_management_deskt.Database.Action.{ok}
use voucher_management_deskt.Recovery.Marker.{holds}
use voucher_management_deskt.Prelude.{◌≡◌, some, none, List, refl, false, ◌∷◌, true, []}
use voucher_management_deskt.UnifiApi.Pages.Tests.{python}
use voucher_management_deskt.History.Base.{Env, Disk}
use voucher_management_deskt.History.Samples.{platform, working, disk, printed, sample_pending, hex}
use voucher_management_deskt.History.Pending.{load_pending_print, pending_json}
use voucher_management_deskt.History.Steps.{PrintCall, on_record, on_recover}
use voucher_management_deskt.History.Steps.Kept.{run, run_keeps, IsReadable, IsExtended}

-- the print fails to reach the journal after one row
abbrev faulty : Env
faulty = record working { append_stops = some (1, false) }

abbrev record_call : PrintCall
record_call = on_record (some "abc") none true printed

-- the row is lost, recovery is tried, and then succeeds
abbrev calls : List (Env × PrintCall)
calls =
    (faulty, record_call) ∷ (faulty, on_recover false true) ∷ (working, on_recover false true) ∷ []

abbrev final : Disk
final = run python platform calls disk

readable : load_pending_print python platform disk.pending ≡ ok none
unfolding load_pending_print
readable = refl

run_keeps_example : IsReadable python platform final × IsExtended disk.journal final.journal
run_keeps_example = run_keeps python platform hex (λ path. refl) calls disk refl (none, readable)

abbrev pending_disk : Disk
pending_disk = record disk {
  pending =
      holds
        (obj (pending_json sample_pending.state sample_pending.audit_id sample_pending.records));
}
