-- ===== src/History/Samples.antt =====
-- A platform, a disk and a print that the tests of the print journal run on.
use voucher_management_deskt.Recovery.Marker.{missing_file}
use voucher_management_deskt.Prelude.{
  String, ℕ, none, ◌∷◌, ◌≡◌, if◌then◌else◌, false, true, [], ◌==◌, Bool-cases, inl, inr, refl,
}
use voucher_management_deskt.Json.{Fields, field, text, end, num, pos}
use voucher_management_deskt.History.Base.{Platform, Env, Disk, lines, row}
use voucher_management_deskt.History.Pending.{PendingPrintAudit, submitted}
use voucher_management_deskt.History.Records.{PrintArgs}
use voucher_management_deskt.Recovery.Intent.{is_digest, all_hex, lower}

abbrev pub first_digest : String
first_digest = "0000000000000000000000000000000000000000000000000000000000000001"

abbrev pub second_digest : String
second_digest = "0000000000000000000000000000000000000000000000000000000000000002"

abbrev pub platform : Platform
platform = record {
  fingerprint = λ secret. secret;
  hmac = λ secret message. if message == "1234567890" then first_digest else second_digest;
  file_name = λ path. path;
  lower = λ s. s;
}

pub hex : (k m : String) → is_digest (lower (platform.hmac k m)) ≡ true
unfolding is_digest all_hex lower
hex k m = elim (Bool-cases (m == "1234567890")) [ inl e ↦ rw e refl | inr e ↦ rw e refl ]

abbrev pub working : Env
working = record {
  append_stops = none;
  write_fails = false;
  unlink_fails = false;
  settings_fail = false;
  key_fails = false;
  new_secret = "abcdefabcdefabcdef";
  token = λ n. "abc";
  now = "2026-01-01T00:00:00+00:00";
}

-- a key with its fingerprint, and a journal with one row
abbrev pub disk : Disk
disk = record {
  fingerprint = "0123456789abcdef";
  secret = "0123456789abcdef";
  recovered_key = false;
  journal = lines (row end ∷ []);
  pending = missing_file;
}

abbrev pub printed : PrintArgs
printed = record {
  codes = "1234567890" ∷ "0987654321" ∷ "1234567890" ∷ [];
  output_path = "Voucher.pdf";
  document_copies = 2;
  audit_id = "abc";
  submitted_at = "2026-01-01T00:00:00+00:00";
  site_id = "";
  unifi_ids = none;
}

-- a record of the print, with a digest and its labels
abbrev pub sample_record : String → ℕ → Fields
sample_record voucher_id physical = field "event" (text "print") (
    field "voucher_id" (text voucher_id) (
      field "timestamp" (text "2026-01-01T00:00:00+00:00") (
        field "output_file" (text "Voucher.pdf") (
          field "document_copies" (num (pos 2)) (
            field "physical_copies" (num (pos physical))
              (field "print_job_id" (text "abc") end))))))

abbrev pub sample_pending : PendingPrintAudit
sample_pending = record {
  state = submitted;
  audit_id = "abc";
  records = sample_record first_digest 4 ∷ sample_record second_digest 2 ∷ [];
}
