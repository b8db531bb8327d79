-- ===== src/Workflows/Printing/Tests.antt =====
-- A batch of two vouchers (workflows.py).
use voucher_management_deskt.Samples.{first_voucher, second_voucher}
use voucher_management_deskt.Models.{ApiVoucher}
use voucher_management_deskt.Prelude.{List, ◌∷◌, []}
use voucher_management_deskt.Workflows.Printing.{VoucherBatch}

abbrev both : List ApiVoucher
both = first_voucher ∷ second_voucher ∷ []

abbrev two_records : VoucherBatch
two_records = record {
  vouchers =
      record { code = "12345-67890"; duration_minutes = 60; recipient = "Ada"; unifi_id = "a" }
      ∷ record { code = "09876-54321"; duration_minutes = 60; recipient = "Ada"; unifi_id = "b" }
      ∷ [];
  recipient = "Ada";
  site_id = "site";
}
