-- ===== src/Database/PrintAudit.antt =====
-- `Database.record_print_audit` of database.py: a physical print is recorded once, whatever the
-- retries.
pub mod Printed
mod Tests
use voucher_management_deskt.Database.Queries.{insert_event}
use voucher_management_deskt.Database.Rows.{
  Voucher, Db, PrintJob, printed, VoucherPrint, next_id, max_id, has_id, is_unknown,
  printed_from_unknown_state, operator, text,
}
use voucher_management_deskt.Database.PrintLabels.{labels_of, PrintAudit, expected_prints}
use voucher_management_deskt.Prelude.{
  List, [], ◌∷◌, ℕ, Option, Bool, suc, String, all_by, ◌==◌, map, some, update_by, eqb, none,
  filter_by, not, ◌++◌, strip, ◌&&◌, any_by, true, if◌then◌else◌, find_by, ltb,
}
use voucher_management_deskt.Database.Action.{
  Action, ◌>>=◌, ◌>>◌, pure, modify, gets, raise_if, runtime_error, other_job_data, for_each,
  other_voucher_data, lift, transaction,
}

pub printed_row : Voucher → Voucher
printed_row v = record v { print_state = printed }

-- `UPDATE vouchers SET print_state='PRINTED' WHERE id=?`
pub set_printed : ℕ → Action (Unit {0})
unfolding printed_row
set_printed k = modify (λ db. record db { vouchers = update_by (has_id k) printed_row db.vouchers })

abbrev same_entry : ℕ × ℕ → ℕ × ℕ → Bool
same_entry (k, n) (j, m) = eqb k j && eqb n m

-- `actual != expected_prints` of two dictionaries
pub same_entries : List (ℕ × ℕ) → List (ℕ × ℕ) → Bool
same_entries a b =
    all_by (λ e. any_by (same_entry e) b) a && all_by (λ e. any_by (same_entry e) a) b

pub prints_of_job : ℕ → List VoucherPrint → List (ℕ × ℕ)
prints_of_job j ps =
    map (λ (p : VoucherPrint). (p.voucher_id, p.physical_copies))
      (filter_by (λ p. eqb p.print_job_id j) ps)

-- `comparable`
pub same_job : PrintAudit → PrintJob → Bool
same_job a j =
    j.submitted_at == strip a.printed_at
    && j.windows_user == strip a.windows_user
    && j.output_file == a.output_file
    && eqb j.document_copies a.document_copies
    && j.is_audited

-- an audit that is recorded already
pub repeat_audit : PrintAudit → List (ℕ × ℕ) → PrintJob → Action (Unit {0})
unfolding set_printed same_entries prints_of_job same_job
repeat_audit a expected j = do
  raise_if (not (same_job a j)) (runtime_error other_job_data)
  actual ← gets (λ db. prints_of_job j.id db.prints)
  raise_if (not (same_entries actual expected)) (runtime_error other_voucher_data)
  for_each expected λ e. set_printed e.0

-- `COALESCE(MAX(print_sequence), 0)` of the voucher
pub last_sequence : ℕ → List VoucherPrint → ℕ
last_sequence k ps = max_id (λ p. p.print_sequence) (filter_by (λ p. eqb p.voucher_id k) ps)

-- the voucher's row says UNKNOWN, or there is none
abbrev pub was_unknown : ℕ → Db → Bool
was_unknown k db = all_by (λ v. is_unknown v.print_state) (filter_by (has_id k) db.vouchers)

-- the loop's body for one voucher
pub insert_print : PrintAudit → ℕ → ℕ → ℕ → Action (Unit {0})
unfolding set_printed last_sequence
insert_print a job k copies = do
  sequence ← gets (λ db. suc (last_sequence k db.prints))
  first_unknown ← gets (λ db. eqb sequence 1 && was_unknown k db)
  if first_unknown
      then insert_event k printed_from_unknown_state (strip a.printed_at) operator
          (some (strip a.windows_user))
          (some (
            ("prior_print_state", text "UNKNOWN")
            ∷ ("print_job_uuid", text (strip a.audit_id))
            ∷ []))
      else pure tt
  modify (λ db. record db {
    prints =
        db.prints
        ++ record {
          id = next_id (λ p. p.id) db.prints;
          print_job_id = job;
          voucher_id = k;
          printed_at = strip a.printed_at;
          windows_user = strip a.windows_user;
          physical_copies = copies;
          print_sequence = sequence;
          is_reprint = ltb 1 sequence;
        }
          ∷ [];
  })
  set_printed k

-- an audit that is new
pub insert_audit : PrintAudit → List (ℕ × ℕ) → Action (Unit {0})
unfolding insert_print
insert_audit a expected = do
  job ← gets (λ db. next_id (λ j. j.id) db.print_jobs)
  modify (λ db. record db {
    print_jobs =
        db.print_jobs
        ++ record {
          id = job;
          print_job_uuid = strip a.audit_id;
          submitted_at = strip a.printed_at;
          windows_user = strip a.windows_user;
          output_file = a.output_file;
          document_copies = a.document_copies;
          is_audited = true;
        }
          ∷ [];
  })
  for_each expected λ e. insert_print a job e.0 e.1

pub write_audit : PrintAudit → List (ℕ × ℕ) → Option PrintJob → Action (Unit {0})
write_audit a expected none = insert_audit a expected
write_audit a expected (some j) = repeat_audit a expected j

-- inside the transaction
pub audit_in_transaction : ℕ → PrintAudit → Bool → List (String × ℕ) → Action (Unit {0})
unfolding write_audit
audit_in_transaction c a by_id labels = do
  expected ← expected_prints by_id c a.document_copies labels
  existing ←
      gets (λ db. find_by (λ (j : PrintJob). j.print_job_uuid == strip a.audit_id) db.print_jobs)
  write_audit a expected existing

pub record_print_audit : ℕ → PrintAudit → Action (Unit {0})
record_print_audit c a = do
  labels ← lift (labels_of a)
  transaction (audit_in_transaction c a labels.0 labels.1)
