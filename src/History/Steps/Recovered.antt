-- ===== src/History/Steps/Recovered.antt =====
-- Recovery and the writing of a print's rows (history.py) as moves of the abstract machine.
use voucher_management_deskt.History.Identity.Kept.{usable_secret-IsFramed}
use voucher_management_deskt.Database.Action.{ok, Result-cases}
use voucher_management_deskt.Prelude.{
  String, List, Bool, some, ◌≡◌, if◌then◌else◌, ◌∷◌, [], refl, inl, arith, inr, true, Option, sym,
  none, subst, false, ap, ◌∙◌,
}
use voucher_management_deskt.Json.{Python, Fields}
use voucher_management_deskt.History.Base.{Platform, Env, Disk, Action, ◌>>>◌, append, reads}
use voucher_management_deskt.History.Identity.{usable_secret}
use voucher_management_deskt.History.Pending.{
  PendingPrintAudit, load_pending_print, clear_pending_print, mark_print_submitted, is_submitted,
  PrintStage, submitted, prepared,
}
use voucher_management_deskt.History.Steps.{Moves, Loads, IsOfJob, here, retire}
use voucher_management_deskt.History.Steps.Markers.{
  bind_moves, append_moves, clear_pending_print_moves, usable_secret_moves,
  mark_print_submitted_moves,
}
use voucher_management_deskt.History.Journal.{verify_print_job}
use voucher_management_deskt.History.Print
use voucher_management_deskt.History.Print.{
  complete_again, promote, recover_loaded, missing_records, record_print_records, settle, complete,
}

module _ (py : Python) (os : Platform) (env : Env) where
  append_pending : (rs : List Fields) (d : Disk) → (append env rs d).1.pending ≡ d.pending
  unfolding append
  append_pending [] d = refl
  append_pending (r ∷ rs) d = refl

  record_print_records_moves :
      (rs : List Fields) (audit_id : String) (d : Disk)
      → Moves py os d (record_print_records py os env rs audit_id d).1
  unfolding record_print_records
  record_print_records_moves rs audit_id d =
      bind_moves py os env
        (reads (λ d. missing_records py os env rs audit_id d.journal) >>> append env)
        (λ _. reads (λ d. verify_print_job py rs audit_id d.journal)) d
        (bind_moves py os env (reads (λ d. missing_records py os env rs audit_id d.journal))
          (append env) d (here d) (λ missing _. append_moves py os env missing d))
        (λ _ _. here _)

  -- A call that returns has verified the journal, and left the descriptor.
  pub record_print_records-ok :
      (rs : List Fields) (audit_id : String) (d : Disk)
      → (record_print_records py os env rs audit_id d).0 ≡ ok tt
      → (verify_print_job py rs audit_id (record_print_records py os env rs audit_id d).1.journal
          ≡ ok tt)
        × ((record_print_records py os env rs audit_id d).1.pending ≡ d.pending)
  unfolding record_print_records
  record_print_records-ok rs audit_id d h =
      elim (Result-cases (missing_records py os env rs audit_id d.journal)) [
        | inl (missing, e) ↦ elim (Result-cases (append env missing d).0) [
          | inl (a, f) ↦ ground (arith, append_pending missing d)
          | inr (x, f) ↦ ground arith
        ]
        | inr (x, e) ↦ ground arith
      ]

  cleared_moves :
      (clear_pending : Bool) (rs : List Fields) (audit_id : String) (d : Disk)
      → ((q : PendingPrintAudit) → Loads py os d (some q) → q.audit_id ≡ audit_id → IsOfJob q rs)
      → verify_print_job py rs audit_id d.journal ≡ ok tt
      → Moves py os d
          ((if clear_pending then clear_pending_print py os env audit_id else λ d. (ok tt, d)) d).1
  cleared_moves false rs audit_id d job v = here d
  cleared_moves true rs audit_id d job v = clear_pending_print_moves py os env audit_id d λ p h i.
      retire d p rs h (job p h i)
        (subst (λ a. verify_print_job py rs a d.journal ≡ ok tt) (sym i) v)

  pub settle_moves :
      (clear_pending : Bool) (rs : List Fields) (audit_id : String) (d : Disk)
      → ((q : PendingPrintAudit) → Loads py os d (some q) → q.audit_id ≡ audit_id → IsOfJob q rs)
      → Moves py os d (settle py os env clear_pending rs audit_id d).1
  unfolding settle
  settle_moves clear_pending rs audit_id d job =
      bind_moves py os env (record_print_records py os env rs audit_id)
        (λ _. if clear_pending then clear_pending_print py os env audit_id else λ d. (ok tt, d)) d
        (record_print_records_moves rs audit_id d)
        (λ _ h.
          (let (verified, left) = record_print_records-ok rs audit_id d h in
            cleared_moves clear_pending rs audit_id (record_print_records py os env rs audit_id d).1
              (λ q l. job q (ap (load_pending_print py os) (sym left) ∙ l)) verified))

  loaded_once :
      (d : Disk) (p q : PendingPrintAudit)
      → Loads py os d (some p)
      → Loads py os d (some q)
      → q.records ≡ p.records
  loaded_once d p q h k = ground arith

  complete_moves :
      (clear_pending : Bool) (p : PendingPrintAudit) (d : Disk)
      → Loads py os d (some p)
      → Moves py os d (Print.complete py os env clear_pending p d).1
  unfolding Print.complete
  complete_moves clear_pending p d h =
      bind_moves py os env (settle py os env clear_pending p.records p.audit_id)
        (λ _ d. (ok true, d)) d
        (settle_moves clear_pending p.records p.audit_id d
          (λ q k i. inl (sym (loaded_once d p q h k))))
        (λ _ _. here _)

  complete_again_moves :
      (clear_pending : Bool) (d : Disk) (o : Option PendingPrintAudit)
      → Loads py os d o
      → Moves py os d (complete_again py os env clear_pending o d).1
  unfolding complete_again
  complete_again_moves clear_pending d none h = here d
  complete_again_moves clear_pending d (some p) h = complete_moves clear_pending p d h

  reread :
      {A : Type 0} (m : Action A) (d : Disk) {o : Option PendingPrintAudit}
      → ((m >>> λ _. reads (λ d'. load_pending_print py os d'.pending)) d).0 ≡ ok o
      → Loads py os ((m >>> λ _. reads (λ d'. load_pending_print py os d'.pending)) d).1 o
  reread m d h = elim (Result-cases (m d).0) [
    | inl (a, e) ↦ ground arith
    | inr (x, e) ↦ ground arith
  ]

  promote_moves :
      (assume_submitted clear_pending : Bool) (p : PendingPrintAudit) (d : Disk)
      → Moves py os d (promote py os env assume_submitted clear_pending p d).1
  unfolding promote
  promote_moves false clear_pending p d = here d
  promote_moves true clear_pending p d =
      bind_moves py os env
        (mark_print_submitted py os env p.audit_id >>> λ _.
          reads (λ d'. load_pending_print py os d'.pending))
        (λ again. complete_again py os env clear_pending again) d
        (bind_moves py os env (mark_print_submitted py os env p.audit_id)
          (λ _. reads (λ d'. load_pending_print py os d'.pending)) d
          (mark_print_submitted_moves py os env p.audit_id d) (λ _ _. here _))
        (λ o h.
          complete_again_moves clear_pending _ o
            (reread (mark_print_submitted py os env p.audit_id) d h))

  resumed_moves :
      (state : PrintStage) (assume_submitted clear_pending : Bool) (p : PendingPrintAudit)
      (d : Disk)
      → Loads py os d (some p)
      → Moves py os d
          ((if is_submitted state
              then Print.complete py os env clear_pending p
              else promote py os env assume_submitted clear_pending p)
            d).1
  resumed_moves submitted assume_submitted clear_pending p d h = complete_moves clear_pending p d h
  resumed_moves prepared assume_submitted clear_pending p d h =
      promote_moves assume_submitted clear_pending p d

  pub recover_loaded_moves :
      (assume_submitted clear_pending : Bool) (d : Disk) (o : Option PendingPrintAudit)
      → Loads py os d o
      → Moves py os d (recover_loaded py os env assume_submitted clear_pending o d).1
  unfolding recover_loaded
  recover_loaded_moves assume_submitted clear_pending d none h = here d
  recover_loaded_moves assume_submitted clear_pending d (some p) h =
      bind_moves py os env (usable_secret os env)
        (λ _.
          if is_submitted p.state
          then Print.complete py os env clear_pending p
          else promote py os env assume_submitted clear_pending p)
        d (usable_secret_moves py os env d)
        (λ _ _.
          resumed_moves p.state assume_submitted clear_pending p _
            (ap (load_pending_print py os) (usable_secret-IsFramed os env d).1 ∙ h))
