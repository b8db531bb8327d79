-- ===== src/Database/PrintAudit/Tests.antt =====
-- Audits of physical prints in the sample database (database.py).
-- two labels of the second row, on paper three times each
use voucher_management_deskt.Database.Rows.{max_id, Voucher}
use voucher_management_deskt.Database.Queries.{insert_event}
use voucher_management_deskt.Database.Action.{
  ok, for_each, transaction, err, runtime_error, unknown_voucher,
}
use voucher_management_deskt.Database.PrintAudit.Printed.{is_printed_id, audited_are_printed}
use voucher_management_deskt.Database.PrintLabels.Named.{is_label, is_row_of}
use voucher_management_deskt.Samples.{sample_db}
use voucher_management_deskt.Prelude.{
  ◌∷◌, some, [], ◌≡◌, true, strip, without_dashes, from_keys, refl, filter_by,
}
use voucher_management_deskt.Database.PrintAudit.{
  record_print_audit, audit_in_transaction, write_audit, insert_audit, insert_print, set_printed,
  last_sequence,
}
use voucher_management_deskt.Database.PrintLabels.{
  PrintAudit, expected_prints, labels_of, label_counts, counter, normalized_codes, names_row,
  only_row,
}

abbrev audit : PrintAudit
audit = record {
  audit_id = "job";
  codes = "12345-67890" ∷ "12345-67890" ∷ [];
  output_file = "out";
  unifi_ids = some ("b" ∷ " b" ∷ []);
  document_copies = 3;
  printed_at = "2026-01-03";
  windows_user = "ada";
}

audited : (record_print_audit 1 audit sample_db).0 ≡ ok tt
unfolding record_print_audit audit_in_transaction write_audit insert_audit insert_print set_printed
    last_sequence expected_prints labels_of label_counts counter normalized_codes names_row only_row
    for_each transaction insert_event strip without_dashes from_keys max_id
audited = refl

second_label : is_label audit "b" ≡ true
unfolding strip
second_label = refl

audited_are_printed_example :
    (v : Voucher) × (filter_by (is_row_of audit 1 "b") sample_db.vouchers ≡ v ∷ [])
    × (is_printed_id (record_print_audit 1 audit sample_db).1 v.id ≡ true)
audited_are_printed_example = audited_are_printed 1 audit sample_db "b" audited second_label

abbrev unknown_label : PrintAudit
unknown_label = record audit { unifi_ids = some ("b" ∷ "z" ∷ []) }

not_audited : (record_print_audit 1 unknown_label sample_db).0 ≡ err (runtime_error unknown_voucher)
unfolding record_print_audit audit_in_transaction expected_prints labels_of label_counts counter
    normalized_codes names_row only_row transaction strip without_dashes from_keys
not_audited = refl
