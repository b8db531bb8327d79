-- ===== src/History/Print/Tests.antt =====
-- The recovery of a print of which one row has reached the journal.
use voucher_management_deskt.Recovery.Marker.{holds, missing_file}
use voucher_management_deskt.Database.Action.{
  ok, err, history_error, job_incoherent, damaged_pending,
}
use voucher_management_deskt.Prelude.{
  strip, is_space, any_by, is_unique, ◌≡◌, all_by, false, List, ◌++◌, refl, ◌==◌, true, ◌∷◌, map,
  [],
}
use voucher_management_deskt.UnifiApi.Pages.Tests.{python}
use voucher_management_deskt.History.Base.{
  for_items, items_of, fold_rows, Disk, Line, row, read_lines, lines,
}
use voucher_management_deskt.History.Samples.{
  platform, working, disk, sample_pending, sample_record, first_digest, second_digest,
}
use voucher_management_deskt.History.Pending.{
  load_pending_print, pending_of, format_of, audit_from, stage_of, audit_of, is_audit_id,
  all_hex_or_dash, records_of, pending_json, prepared,
}
use voucher_management_deskt.History.Pending.RoundTrip.{load-pending_json}
use voucher_management_deskt.History.Pending.Tests.{sample_pending_sound}
use voucher_management_deskt.History.Journal.{collect, is_job_row, agrees, job_key}
use voucher_management_deskt.History.Values.{
  rows_json, is_text, event_of, text_or_empty, get_eqb, json_eqb, is_hashable,
}
use voucher_management_deskt.History.Print.{recover_pending_print_audit, missing_records}
use voucher_management_deskt.History.Print.Behind.{is_plain}
use voucher_management_deskt.History.Print.Distinct.{vouchers}
use voucher_management_deskt.History.Print.Completed.{recover_pending_print_audit-completes}
use voucher_management_deskt.Recovery.Intent.{all_hex, lower}
use voucher_management_deskt.Json.{find, Fields, end, obj}

abbrev others : List Line
others = row end ∷ []

abbrev first_row : List Fields
first_row = sample_record first_digest 4 ∷ []

abbrev second_row : List Fields
second_row = sample_record second_digest 2 ∷ []

abbrev interrupted : Disk
interrupted = record disk {
  journal = lines (others ++ map row first_row);
  pending =
      holds
        (obj (pending_json sample_pending.state sample_pending.audit_id sample_pending.records));
}

others_readable : (read_lines others).1 ≡ false
unfolding read_lines
others_readable = refl

others_unused : any_by (is_job_row sample_pending.audit_id) (read_lines others).0 ≡ false
unfolding read_lines is_job_row is_text event_of find
others_unused = refl

rows_plain : all_by (is_plain python sample_pending.audit_id) (first_row ++ second_row) ≡ true
unfolding is_job_row is_text event_of find text_or_empty agrees get_eqb json_eqb is_hashable job_key
rows_plain = refl

rows_distinct :
    is_unique ◌==◌ (vouchers python sample_pending.audit_id (first_row ++ second_row)) ≡ true
unfolding text_or_empty find
rows_distinct = refl

recover_pending_print_audit-completes_example :
    recover_pending_print_audit python platform working false true interrupted ≡ (
      ok true,
      record interrupted {
        journal = lines (others ++ map row (first_row ++ second_row));
        pending = missing_file;
      },
    )
recover_pending_print_audit-completes_example =
    recover_pending_print_audit-completes python platform working sample_pending first_row
      second_row others interrupted false refl
      (load-pending_json python platform sample_pending sample_pending_sound) refl refl refl
      others_readable others_unused rows_plain rows_distinct refl refl

-- one code printed for two ids: two records with one digest
abbrev same_code : List Fields
same_code = sample_record first_digest 2 ∷ sample_record first_digest 2 ∷ []

-- once both rows are there, the job is refused
same_code_refused :
    missing_records python platform working same_code "abc" (lines (map row same_code))
    ≡ err (history_error job_incoherent)
unfolding missing_records for_items items_of read_lines fold_rows collect is_job_row is_text
    event_of find text_or_empty
same_code_refused = refl

-- a descriptor without records is written, and then refused
no_codes_refused :
    load_pending_print python platform (holds (obj (pending_json prepared "abc" [])))
    ≡ err (history_error damaged_pending)
unfolding load_pending_print pending_of format_of audit_from stage_of audit_of is_audit_id
    all_hex_or_dash all_hex lower records_of find text_or_empty strip is_space is_hashable json_eqb
    pending_json rows_json
no_codes_refused = refl
