-- ===== src/Workflows/PrintJob.antt =====
-- `execute_print_job` of workflows.py. The renderer is a parameter: what it returns or raises.
pub mod Audited
pub mod Tests
use voucher_management_deskt.Database.Action.{Result, ok}
use voucher_management_deskt.Prelude.{String, List, Bool, not, map, is_nil}
use voucher_management_deskt.Json.{Python}
use voucher_management_deskt.History.Base.{Platform, Env, Action, ◌>>>◌, reads}
use voucher_management_deskt.History.Queries.{find_duplicates_for_batch}
use voucher_management_deskt.History.Batch.{record_batch}
use voucher_management_deskt.Workflows.Printing.{VoucherBatch, VoucherRecord}

pub record PrintJob : Type 0 where
  pub batch : VoucherBatch
  pub output : String

pub record PrintJobOutcome : Type 0 where
  pub output : String
  pub codes : List String
  pub reprint : Bool

unfoldable pub job_outcome : PrintJob → Bool → PrintJobOutcome
job_outcome job reprint = record {
  output = job.output;
  codes = map (λ (v : VoucherRecord). v.code) job.batch.vouchers;
  reprint = reprint;
}

module _ (py : Python) (os : Platform) (env : Env) where
  -- the audit, with `reprint` where a document of the batch was generated before
  unfoldable pub audit_job : PrintJob → Bool → Action PrintJobOutcome
  audit_job job reprint = record_batch py os env job.batch job.output reprint >>> λ _ d.
      (ok (job_outcome job reprint), d)

  unfoldable pub execute_print_job :
      (PrintJob → Result (Unit {0})) → PrintJob → Action PrintJobOutcome
  execute_print_job render_pdf job =
      reads (λ d. render_pdf job)
      >>> (λ _. find_duplicates_for_batch py os env job.batch)
      >>> λ duplicates. audit_job job (not (is_nil duplicates))
