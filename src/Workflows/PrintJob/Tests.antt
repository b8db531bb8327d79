-- ===== src/Workflows/PrintJob/Tests.antt =====
-- A print job of one voucher, run.
use voucher_management_deskt.Database.Action.{Result, ok}
use voucher_management_deskt.Prelude.{strip, is_space, ◌∷◌, ◌≡◌, [], refl, false}
use voucher_management_deskt.History.Base.{
  for_items, items_of, read_lines, fold_rows, append, flushed, write_lines,
}
use voucher_management_deskt.History.Identity.{
  usable_secret, digest, stable_digest, stable_identity, is_ascii,
}
use voucher_management_deskt.History.Values.{
  text_or_empty, is_text, event_of, get_eqb, json_eqb, is_hashable,
}
use voucher_management_deskt.History.Journal.{verify_event, key_set, found_key, event_key}
use voucher_management_deskt.History.Queries.{
  find_duplicates_for_batch, batch_targets, add_voucher, batch_step, matched_code, is_generated,
}
use voucher_management_deskt.History.Batch.{record_batch, generate_records, generate_record}
use voucher_management_deskt.History.Samples.{platform, working, disk}
use voucher_management_deskt.UnifiApi.Pages.Tests.{python}
use voucher_management_deskt.Workflows.PrintJob.{
  PrintJob, PrintJobOutcome, job_outcome, execute_print_job, audit_job,
}
use voucher_management_deskt.Workflows.PrintJob.Audited.{execute_print_job-IsRecorded, IsPrinted}
use voucher_management_deskt.Json.{find}

abbrev job : PrintJob
job = record {
  batch = record {
    vouchers =
        record { code = "1234567890"; duration_minutes = 60; recipient = "Ada"; unifi_id = "a" }
        ∷ [];
    recipient = "Ada";
    site_id = "";
  };
  output = "Voucher.pdf";
}

abbrev render : PrintJob → Result (Unit {0})
render j = ok tt

abbrev expected : PrintJobOutcome
expected = record { output = "Voucher.pdf"; codes = "1234567890" ∷ []; reprint = false }

returned : (execute_print_job python platform working render job disk).0 ≡ ok expected
unfolding execute_print_job find_duplicates_for_batch usable_secret batch_targets add_voucher strip
    is_space digest is_ascii for_items fold_rows items_of read_lines batch_step is_generated is_text
    event_of find audit_job append flushed write_lines generate_record generate_records record_batch
    stable_digest stable_identity event_key found_key key_set verify_event matched_code get_eqb
    is_hashable json_eqb text_or_empty job_outcome
returned = refl

execute_print_job-IsRecorded_example :
    (render job ≡ ok tt)
    × IsPrinted python platform working job disk expected
        (execute_print_job python platform working render job disk).1
execute_print_job-IsRecorded_example =
    execute_print_job-IsRecorded python platform working render job disk expected returned
