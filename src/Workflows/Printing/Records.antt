-- ===== src/Workflows/Printing/Records.antt =====
-- How many records a batch (`build_print_batch` of workflows.py) has, and which codes.
use voucher_management_deskt.Models.{ApiVoucher}
use voucher_management_deskt.Prelude.{
  ℕ, List, length, String, ◌≡◌, ◌==◌, if◌then◌else◌, ◌∷◌, [], ◌≤◌, is_unique, map, true,
  without_dashes, ◌⊎◌, Bool, all_by, strip, false, not, is_empty, ◌&&◌,
}
use voucher_management_deskt.Workflows.Printing.{
  VoucherRecord, replicate, batch, only_unlimited, record_of, BatchResult, refused,
}

-- the id and the code of a record, without the dashes and the blanks around
abbrev pub record_id : VoucherRecord → String
record_id r = strip r.unifi_id

abbrev pub record_code : VoucherRecord → String
record_code r = without_dashes (strip r.code)

abbrev pub is_identified : VoucherRecord → Bool
is_identified r =
    not (is_empty (strip r.unifi_id)) && not (is_empty (without_dashes (strip r.code)))

-- one voucher without a limit of guests, as often as it was asked for; or every voucher once
abbrev pub IsRepeated : List ApiVoucher → ℕ → List VoucherRecord → Type 0
IsRepeated selected copies rs =
    ((v : ApiVoucher) × (selected ≡ v ∷ []) × (v.quota ≡ 0) × (rs ≡ replicate copies (record_of v)))
    ⊎ ((only_unlimited selected ≡ false)
        × (rs ≡ map record_of selected)
        × (is_unique ◌==◌ (map record_id rs) ≡ true)
        × (is_unique ◌==◌ (map record_code rs) ≡ true))

-- What the records of a batch are.
pub record IsBatch (selected : List ApiVoucher) (copies : ℕ) (rs : List VoucherRecord)
    : Type 0 where
  pub size : length rs ≡ (if only_unlimited selected then copies else length selected)
  pub enough_copies : 1 ≤ copies
  pub few_copies : copies ≤ 999
  pub identified : all_by is_identified rs ≡ true
  pub repeated : IsRepeated selected copies rs

abbrev vouchers_of : BatchResult → List VoucherRecord
vouchers_of (batch b) = b.vouchers
vouchers_of (refused e) = []
