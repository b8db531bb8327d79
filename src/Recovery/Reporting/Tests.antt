-- ===== src/Recovery/Reporting/Tests.antt =====
-- A confirmed creation is classified in the sample database.
use voucher_management_deskt.Recovery.Reporting.{
  reconcile_pending_create_reporting, load_pending_create_reporting,
}
use voucher_management_deskt.Json.{obj, field, num, pos, arr, bool, end, text}
use voucher_management_deskt.Prelude.{arith, true, none, ◌∷◌, []}
use voucher_management_deskt.Recovery.Marker.{holds, Marker, texts}
use voucher_management_deskt.Database.WellFormed.{IsWellFormed}
use voucher_management_deskt.Samples.{sample_db}
use voucher_management_deskt.UnifiApi.Pages.Tests.{python}
use voucher_management_deskt.Recovery.Reporting.Classified.{
  reconcile_reporting-IsClassified, IsReconciled,
}

rows-IsWellFormed : IsWellFormed sample_db.vouchers
rows-IsWellFormed = record { ascending = ground arith; keys_unique = ground arith }

abbrev marker_file : Marker
marker_file = holds (
    obj (
      field "format" (num (pos 1)) (
        field "controller_id" (num (pos 1)) (
          field "voucher_ids" (arr (texts ("a" ∷ [])))
            (field "is_nominal" (bool true) (field "confirmed_at" (text "2026-01-03") end))))))

reconcile_reporting-IsClassified_example :
    IsReconciled true marker_file sample_db
      (load_pending_create_reporting python marker_file)
      (reconcile_pending_create_reporting python true none marker_file sample_db)
reconcile_reporting-IsClassified_example =
    reconcile_reporting-IsClassified python true none marker_file sample_db rows-IsWellFormed
