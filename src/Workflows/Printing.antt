-- ===== src/Workflows/Printing.antt =====
-- `build_print_batch` of workflows.py, with `VoucherRecord` and `VoucherBatch` of models.py.
pub mod Records
mod Tests
use voucher_management_deskt.Prelude.{
  List, [], ◌∷◌, String, ℕ, Option, Bool, without_dashes, strip, if◌then◌else◌, ◌++◌, suc, some,
  eqb, false, is_empty, none, is_nil, zero, not, leb, ◌&&◌, any_by, map, is_unique, ◌==◌,
}
use voucher_management_deskt.Models.{ApiVoucher, code_formatted}

-- `page_number` keeps its default
pub record VoucherRecord : Type 0 where
  pub code : String
  pub duration_minutes : ℕ
  pub recipient : String
  pub unifi_id : String

-- `source_path` is the constant "CONTROLLER_API"
pub record VoucherBatch : Type 0 where
  pub vouchers : List VoucherRecord
  pub recipient : String
  pub site_id : String

pub data BatchError : Type 0 where
  nothing_selected bad_copies missing_identity duplicate_selection : BatchError
  missing_code ambiguous_code : BatchError

pub data BatchResult : Type 0 where
  batch : VoucherBatch → BatchResult
  refused : BatchError → BatchResult

-- `str(voucher.code_formatted).strip().replace("-", "")`
abbrev pub canonical_code : ApiVoucher → String
canonical_code v = without_dashes (strip (code_formatted v))

abbrev pub identity : ApiVoucher → String
identity v = strip v.id

-- the tests before the records are made, in their order
pub batch_refusal : List ApiVoucher → ℕ → Option BatchError
batch_refusal selected copies =
    if is_nil selected
    then some nothing_selected
    else if not (leb 1 copies && leb copies 999)
    then some bad_copies
    else if any_by is_empty (map identity selected)
    then some missing_identity
    else if not (is_unique ◌==◌ (map identity selected))
    then some duplicate_selection
    else if any_by is_empty (map canonical_code selected)
    then some missing_code
    else if not (is_unique ◌==◌ (map canonical_code selected))
    then some ambiguous_code
    else none

pub record_of : ApiVoucher → VoucherRecord
record_of v = record {
  code = code_formatted v;
  duration_minutes = v.duration_minutes;
  recipient = if is_empty v.recipient then "Guest" else v.recipient;
  unifi_id = v.id;
}

abbrev pub replicate {ℓ} : {A : Type ℓ} → ℕ → A → List A
replicate zero a = []
replicate (suc n) a = a ∷ replicate n a

-- `len(selected) == 1 and selected[0].quota == 0`
abbrev pub only_unlimited : List ApiVoucher → Bool
only_unlimited (v ∷ []) = eqb v.quota 0
only_unlimited _ = false

pub records_of : ℕ → List ApiVoucher → List VoucherRecord
unfolding record_of
records_of repeat [] = []
records_of repeat (v ∷ vs) = replicate repeat (record_of v) ++ records_of repeat vs

abbrev first_recipient : List VoucherRecord → String
first_recipient [] = ""
first_recipient (r ∷ rs) = r.recipient

abbrev pub repeat_of : List ApiVoucher → ℕ → ℕ
repeat_of selected copies = if only_unlimited selected then copies else 1

abbrev or_batch : Option BatchError → VoucherBatch → BatchResult
or_batch none b = batch b
or_batch (some e) b = refused e

pub build_print_batch : List ApiVoucher → ℕ → String → BatchResult
unfolding batch_refusal records_of
build_print_batch selected copies site_id = or_batch (batch_refusal selected copies) (record {
  vouchers = records_of (repeat_of selected copies) selected;
  recipient = first_recipient (records_of (repeat_of selected copies) selected);
  site_id = strip site_id;
})
