-- ===== src/Workflows/PrintJob/Audited.antt =====
-- What `execute_print_job` of workflows.py leaves in the journal.
use voucher_management_deskt.Database.Action.{Result, Result-cases, ok, ok_injective}
use voucher_management_deskt.Prelude.{
  String, any_by, Bool, ◌≡◌, sym, inl, arith, inr, ap, ◌∙◌, subst, is_nil, not, true, ◌⊎◌, map,
}
use voucher_management_deskt.Json.{Python}
use voucher_management_deskt.History.Base.{
  Platform, Env, Disk, Action, ◌>>>◌, reads, bind-ok, write_lines, row, items_of,
}
use voucher_management_deskt.History.Identity.{usable_secret}
use voucher_management_deskt.History.Identity.Kept.{usable_secret-IsFramed, usable_secret_again}
use voucher_management_deskt.Prelude.Dicts.{Dict}
use voucher_management_deskt.History.Queries.{DuplicateHit, find_duplicates_for_batch}
use voucher_management_deskt.History.Batch.{record_batch}
use voucher_management_deskt.History.Batch.Recorded.{IsRecorded, record_batch-IsRecorded}
use voucher_management_deskt.History.Batch.Duplicates.{is_duplicate, find_duplicates-finds}
use voucher_management_deskt.Workflows.Printing.{VoucherBatch, VoucherRecord}
use voucher_management_deskt.Workflows.PrintJob.{
  PrintJob, PrintJobOutcome, job_outcome, audit_job, execute_print_job,
}

module _ (py : Python) (os : Platform) (env : Env) where
  find_duplicates-IsFramed :
      (batch : VoucherBatch) (d : Disk)
      → ((find_duplicates_for_batch py os env batch d).1.journal ≡ d.journal)
        × ((find_duplicates_for_batch py os env batch d).1.pending ≡ d.pending)
  unfolding find_duplicates_for_batch
  find_duplicates-IsFramed batch d = elim (Result-cases (usable_secret os env d).0) [
    | inl (a, e) ↦ ground (arith, usable_secret-IsFramed os env d)
    | inr (x, e) ↦ ground (arith, usable_secret-IsFramed os env d)
  ]

  audit_job-IsRecorded :
      (job : PrintJob) (reprint : Bool) (d : Disk) {outcome : PrintJobOutcome}
      → (audit_job py os env job reprint d).0 ≡ ok outcome
      → (outcome ≡ job_outcome job reprint)
        × (secret : String) × ((usable_secret os env d).0 ≡ ok secret)
        × ((audit_job py os env job reprint d).1.secret ≡ secret)
        × IsRecorded py os env job.batch job.output reprint d (audit_job py os env job reprint d).1
  unfolding audit_job
  audit_job-IsRecorded job reprint d h =
      let (a, e, i) =
        bind-ok (record_batch py os env job.batch job.output reprint)
          (λ _ d. (ok (job_outcome job reprint), d)) d h in
      let (secret, s, key, rec) =
        subst
          (λ r.
            (secret : String) × ((usable_secret os env d).0 ≡ ok secret)
            × (r.1.secret ≡ secret)
            × IsRecorded py os env job.batch job.output reprint d r.1)
          (sym i) (record_batch-IsRecorded py os env job.batch job.output reprint d e) in
      (sym (ok_injective (sym (ap (λ r. r.0) i) ∙ h)), secret, s, key, rec)

  -- the search for duplicates leaves what reading the key leaves
  find_duplicates-ok :
      (batch : VoucherBatch) (d : Disk) {hits : Dict DuplicateHit}
      → (find_duplicates_for_batch py os env batch d).0 ≡ ok hits
      → (secret : String) × ((usable_secret os env d).0 ≡ ok secret)
        × ((find_duplicates_for_batch py os env batch d).1 ≡ (usable_secret os env d).1)
  unfolding find_duplicates_for_batch
  find_duplicates-ok batch d h = elim (Result-cases (usable_secret os env d).0) [
    | inl (secret, e) ↦ (secret, e, ground arith)
    | inr (x, e) ↦ absurd (ground arith)
  ]

  rendered-ok :
      (render_pdf : PrintJob → Result (Unit {0})) (job : PrintJob) (d : Disk)
      {hits : Dict DuplicateHit}
      → ((reads (λ d. render_pdf job) >>> λ _. find_duplicates_for_batch py os env job.batch) d).0
        ≡ ok hits
      → (render_pdf job ≡ ok tt)
        × ((find_duplicates_for_batch py os env job.batch d).0 ≡ ok hits)
        × (((reads (λ d. render_pdf job) >>> λ _. find_duplicates_for_batch py os env job.batch)
              d).1
            ≡ (find_duplicates_for_batch py os env job.batch d).1)
  rendered-ok render_pdf job d h = elim (Result-cases (render_pdf job)) [
    | inl (a, e) ↦ ground arith
    | inr (x, e) ↦ absurd (ground arith)
  ]

  moved-IsRecorded :
      (batch : VoucherBatch) (path : String) (reprint : Bool) (d e d' : Disk)
      → e.journal ≡ d.journal
      → e.pending ≡ d.pending
      → IsRecorded py os env batch path reprint e d'
      → IsRecorded py os env batch path reprint d d'
  moved-IsRecorded batch path reprint d e d' j p (rs, size, named, there, read, left) = (
    rs,
    size,
    named,
    subst (λ k. (is_nil rs ≡ true) ⊎ (d'.journal ≡ write_lines (map row rs) k)) j there,
    read,
    left ∙ p,
  )

  -- What a print job leaves: the result of the job, and a row for each voucher of the batch at the end of
  -- the journal. It is a reprint just when the journal before held a generated document of a voucher of
  -- the batch, by the digests under the key on disk.
  abbrev pub IsPrinted : PrintJob → Disk → PrintJobOutcome → Disk → Type 0
  IsPrinted job d outcome d' =
      (outcome ≡ record {
        output = job.output;
        codes = map (λ (v : VoucherRecord). v.code) job.batch.vouchers;
        reprint = any_by (is_duplicate py os d'.secret job.batch) (items_of d.journal).0;
      })
      × IsRecorded py os env job.batch job.output outcome.reprint d d'

  -- The second reading of the key gives that of the first.
  same_key :
      (d e : Disk) {secret secret' : String}
      → (usable_secret os env d).0 ≡ ok secret
      → e ≡ (usable_secret os env d).1
      → (usable_secret os env e).0 ≡ ok secret'
      → secret' ≡ secret
  same_key d e s q t = ok_injective (
      sym t
      ∙ ap (λ x. (usable_secret os env x).0) q
      ∙ ap (λ r. r.0) (usable_secret_again os env d s))

  -- A print job that returns has rendered its document. Its result has the output and the codes of the
  -- job, and `reprint` true just when the journal held a generated document of one of the vouchers before;
  -- and it has added a row for each voucher of the batch at the end of the journal, in their order, which
  -- holds the digests of this voucher under the key on disk, the name of the document and that answer.
  pub execute_print_job-IsRecorded :
      (render_pdf : PrintJob → Result (Unit {0})) (job : PrintJob) (d : Disk)
      (outcome : PrintJobOutcome)
      → (execute_print_job py os env render_pdf job d).0 ≡ ok outcome
      → (render_pdf job ≡ ok tt)
        × IsPrinted job d outcome (execute_print_job py os env render_pdf job d).1
  unfolding execute_print_job job_outcome
  execute_print_job-IsRecorded render_pdf job d outcome h =
      let first : Action (Dict DuplicateHit) =
        reads (λ d. render_pdf job) >>> λ _. find_duplicates_for_batch py os env job.batch in
      let (hits, e, i) = bind-ok first (λ hits. audit_job py os env job (not (is_nil hits))) d h in
      let (r, f, m) = rendered-ok render_pdf job d e in
      let (o, secret', t, key, rec) =
        audit_job-IsRecorded job (not (is_nil hits)) (first d).1 (sym (ap (λ r. r.0) i) ∙ h) in
      let (secret, s, left) = find_duplicates-ok job.batch d f in
      let (j, p) = find_duplicates-IsFramed job.batch d in
      let d' = (audit_job py os env job (not (is_nil hits)) (first d).1).1 in
      let same : secret ≡ d'.secret = sym (key ∙ same_key d (first d).1 s (m ∙ left) t) in
      let found : not (is_nil hits)
          ≡ any_by (is_duplicate py os d'.secret job.batch) (items_of d.journal).0 =
        find_duplicates-finds py os env job.batch d f s
        ∙ ap (λ x. any_by (is_duplicate py os secret job.batch) (items_of x).0)
            (usable_secret-IsFramed os env d).0
        ∙ ap (λ k. any_by (is_duplicate py os k job.batch) (items_of d.journal).0) same in
      (
        r,
        subst (λ r. IsPrinted job d outcome r.1) (sym i)
            (
              o ∙ ap (λ b. job_outcome job b) found,
              subst (λ b. IsRecorded py os env job.batch job.output b d d')
                  (sym (ap (λ x. x.reprint) o))
                  (moved-IsRecorded job.batch job.output (not (is_nil hits)) d (first d).1 d'
                    (ap (λ x. x.journal) m ∙ j) (ap (λ x. x.pending) m ∙ p) rec),
            ),
      )
