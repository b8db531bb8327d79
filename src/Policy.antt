-- ===== src/Policy.antt =====
-- policy.py, reprint_policy.py and report_policy.py: decisions from facts.
use voucher_management_deskt.Models.{ApiVoucher}
use voucher_management_deskt.Prelude.{
  refl, false, Option, String, ℕ, Bool, true, if◌then◌else◌, some, ◌≡◌, ◌==◌, ltb, eqb, ◌↔◌, not,
  none, ◌≢◌, ◌||◌, opt_bool_eqb, ◌⊎◌, arith,
}

-- `print_jobs` is the one field of `PrintStats` that the policies read
pub record PrintStats : Type 0 where
  pub print_jobs : ℕ

pub data DeleteReason : Type 0 where
  allowed expired in_use printed_before not_aligned_row print_unknown : DeleteReason

-- `allowed` is exactly the result with `allowed=True`
abbrev pub is_allowed : DeleteReason → Bool
is_allowed allowed = true
is_allowed _ = false

abbrev pub has_print_job : Option PrintStats → Bool
has_print_job none = false
has_print_job (some s) = ltb 0 s.print_jobs

unfoldable pub evaluate_delete_policy : ApiVoucher → Option PrintStats → DeleteReason
evaluate_delete_policy v stats =
    if v.status == "EXPIRED"
    then expired
    else if ltb 0 v.used || v.status == "USED_MULTIPLE"
    then in_use
    else if has_print_job stats
    then printed_before
    else allowed

-- `PrintAuditSummary` of database.py
pub record PrintAuditSummary : Type 0 where
  pub print_jobs : ℕ
  pub physical_copies : ℕ
  pub first_printed_at : String
  pub last_printed_at : String
  pub known_printed_without_audit : Bool

pub record ReprintWarning : Type 0 where
  pub required : Bool
  pub previous_print_jobs : ℕ
  pub previous_physical_copies : ℕ
  pub first_printed_at : String
  pub last_printed_at : String
  pub print_history_incomplete : Bool

abbrev pub no_warning : ReprintWarning
no_warning = record {
  required = false;
  previous_print_jobs = 0;
  previous_physical_copies = 0;
  first_printed_at = "";
  last_printed_at = "";
  print_history_incomplete = false;
}

pub evaluate_reprint : PrintAuditSummary → Option Bool → ReprintWarning
evaluate_reprint s ever_used =
    if eqb s.print_jobs 0
    then (if not s.known_printed_without_audit || opt_bool_eqb ever_used (some false)
        then no_warning
        else record no_warning { required = true; print_history_incomplete = true })
    else record {
      required = true;
      previous_print_jobs = s.print_jobs;
      previous_physical_copies = s.physical_copies;
      first_printed_at = s.first_printed_at;
      last_printed_at = s.last_printed_at;
      print_history_incomplete = false;
    }

pub data ReportPurpose : Type 0 where
  summary_purpose audit operational_handoff : ReportPurpose

pub record ReportCodePolicy : Type 0 where
  pub expose_code : Bool
  pub reason : String

unfoldable pub voucher_code_policy : ReportPurpose → Bool → ReportCodePolicy
voucher_code_policy operational_handoff true = record {
  expose_code = true;
  reason = "explicit_operational_handoff";
}
voucher_code_policy audit true = record { expose_code = true; reason = "explicit_audit_history" }
voucher_code_policy summary_purpose true = record {
  expose_code = false;
  reason = "code_not_required_for_report_purpose";
}
voucher_code_policy _ false = record { expose_code = false; reason = "code_hidden_by_default" }

unfoldable pub report_code_value : String → ReportPurpose → Bool → String
unfolding voucher_code_policy
report_code_value code purpose requested =
    if (voucher_code_policy purpose requested).expose_code then code else ""

-- A code leaves the operational UI exactly when it is requested, for a purpose that is not a summary.
pub expose_code_iff :
    (purpose : ReportPurpose) (requested : Bool)
    → ((voucher_code_policy purpose requested).expose_code ≡ true)
      ↔ ((requested ≡ true) × (purpose ≢ summary_purpose))
unfolding voucher_code_policy
expose_code_iff summary_purpose true = (λ h. cc, λ h. absurd (h.1 refl))
expose_code_iff summary_purpose false = (λ h. cc, λ h. absurd (h.1 refl))
expose_code_iff audit true = (λ h. (refl, λ e. cc), λ h. refl)
expose_code_iff audit false = (λ h. cc, λ h. cc)
expose_code_iff operational_handoff true = (λ h. (refl, λ e. cc), λ h. refl)
expose_code_iff operational_handoff false = (λ h. cc, λ h. cc)

-- A reprint needs a confirmation exactly when a print job is known, or when a row says printed without
-- an audit and the voucher is not known to be unused.
pub reprint_required_iff :
    (s : PrintAuditSummary) (ever_used : Option Bool)
    → ((evaluate_reprint s ever_used).required ≡ true)
      ↔ ((s.print_jobs ≢ 0) ⊎ ((s.known_printed_without_audit ≡ true) × (ever_used ≢ some false)))
unfolding evaluate_reprint
reprint_required_iff s none = (λ h. ground arith, λ h. ground arith)
reprint_required_iff s (some b) = (λ h. ground arith, λ h. ground arith)
