-- ===== src/History/Steps/Refined.antt =====
-- Each call on the print journal of history.py is a sequence of moves of the abstract machine.
use voucher_management_deskt.History.Pending.RoundTrip.{is_sound, load-pending_json}
use voucher_management_deskt.Database.Action.{ok, Result-cases}
use voucher_management_deskt.Prelude.{
  String, ◌≡◌, true, Bool, List, not, is_nil, ◌&&◌, is_empty, inl, arith, inr, none, some,
  Bool-cases, ◌⊎◌, Option, sym, subst,
}
use voucher_management_deskt.Json.{Python, Fields}
use voucher_management_deskt.History.Base.{Platform, Env, Disk, ◌>>>◌, reads}
use voucher_management_deskt.History.Identity.{usable_secret}
use voucher_management_deskt.History.Pending.{
  load_pending_print, assert_no_pending_print_audit, persist_pending_print, prepared, PrintStage,
  persist_over, write_pending_print, PendingPrintAudit, is_same_job, submitted,
}
use voucher_management_deskt.History.Records.{PrintArgs, records_with, build_print_records}
use voucher_management_deskt.History.Records.Sound.{records_with-is_sound}
use voucher_management_deskt.History.Steps.{
  Moves, here, Loads, submitted_job, IsOfJob, after_print_call, PrintCall, is_named, on_prepare,
  on_mark, on_recover, on_record, on_discard,
}
use voucher_management_deskt.History.Steps.Markers.{
  bind_moves, persist_pending_print_moves, usable_secret_moves, mark_print_submitted_moves,
  discard_prepared_moves,
}
use voucher_management_deskt.History.Steps.Recovered.{recover_loaded_moves, settle_moves}
use voucher_management_deskt.History.Print.{
  settle, prepare_print_audit, recover_pending_print_audit, recover_loaded, record_print,
  normalized_args,
}
use voucher_management_deskt.Recovery.Intent.{is_digest, lower}

module _ (py : Python) (os : Platform) (env : Env) where
  build_moves : (args : PrintArgs) (d : Disk) → Moves py os d (build_print_records os env args d).1
  unfolding build_print_records
  build_moves args d =
      bind_moves py os env (usable_secret os env) (λ secret d. (records_with os args secret, d)) d
        (usable_secret_moves py os env d) (λ _ _. here _)

  recover_moves :
      (assume_submitted clear_pending : Bool) (d : Disk)
      → Moves py os d (recover_pending_print_audit py os env assume_submitted clear_pending d).1
  unfolding recover_pending_print_audit
  recover_moves assume_submitted clear_pending d =
      bind_moves py os env (reads (λ d. load_pending_print py os d.pending))
        (recover_loaded py os env assume_submitted clear_pending) d (here d)
        (recover_loaded_moves py os env assume_submitted clear_pending d)

  module _ (hex : (k m : String) → is_digest (lower (os.hmac k m)) ≡ true)
      (bare : (path : String) → os.file_name (os.file_name path) ≡ os.file_name path) where
    abbrev is_named_print : PrintArgs → Bool
    is_named_print args = not (is_nil args.codes) && not (is_empty (os.file_name args.output_path))

    built-is_sound :
        (args : PrintArgs) (d : Disk) {rs : List Fields} (state : PrintStage)
        → is_named_print args ≡ true
        → (build_print_records os env args d).0 ≡ ok rs
        → is_sound py os (record { state = state; audit_id = args.audit_id; records = rs }) ≡ true
    unfolding build_print_records
    built-is_sound args d {rs} state n h = elim (Result-cases (usable_secret os env d).0) [
      | inl (secret, e) ↦
          records_with-is_sound py os hex bare args (ground arith) secret state (ground arith)
            (ground arith)
      | inr (x, e) ↦ ground arith
    ]

    after_assert :
        (args : PrintArgs) (d : Disk) {rs : List Fields}
        → ((assert_no_pending_print_audit py os >>> λ _. build_print_records os env args) d).0
          ≡ ok rs
        → (build_print_records os env args d).0 ≡ ok rs
    unfolding assert_no_pending_print_audit
    after_assert args d h = elim (Result-cases (assert_no_pending_print_audit py os d).0) [
      | inl (a, e) ↦ ground arith
      | inr (x, e) ↦ ground arith
    ]

    prepare_moves :
        (args : PrintArgs) (d : Disk)
        → is_named_print args ≡ true
        → Moves py os d (prepare_print_audit py os env args d).1
    unfolding prepare_print_audit assert_no_pending_print_audit
    prepare_moves args d n =
        bind_moves py os env
          (assert_no_pending_print_audit py os >>> λ _. build_print_records os env args)
          (λ records. persist_pending_print py os env records args.audit_id prepared) d
          (bind_moves py os env (assert_no_pending_print_audit py os)
            (λ _. build_print_records os env args) d (here d) (λ _ _. build_moves args d))
          (λ rs h.
            persist_pending_print_moves py os env rs args.audit_id prepared _
              (λ state. built-is_sound args d state n (after_assert args d h)))

    -- the job on disk after the records are persisted is the one that they belong to
    over_none-IsOfJob :
        (rs : List Fields) (audit_id : String) (state : PrintStage) (d : Disk)
        (q : PendingPrintAudit)
        → is_sound py os (record { state = state; audit_id = audit_id; records = rs }) ≡ true
        → (persist_over py os env none rs audit_id state d).0 ≡ ok tt
        → Loads py os (persist_over py os env none rs audit_id state d).1 (some q)
        → q.records ≡ rs
    unfolding persist_over write_pending_print
    over_none-IsOfJob rs audit_id state d q sound h l =
        let p : PendingPrintAudit = record { state = state; audit_id = audit_id; records = rs } in
        elim (Bool-cases env.write_fails) [
          | inl f ↦ ground arith
          | inr f ↦ ground (arith, load-pending_json py os p sound)
        ]

    over_some-IsOfJob :
        (p : PendingPrintAudit) (rs : List Fields) (audit_id : String) (state : PrintStage)
        (d : Disk) (q : PendingPrintAudit)
        → is_sound py os (submitted_job audit_id rs) ≡ true
        → Loads py os d (some p)
        → (persist_over py os env (some p) rs audit_id state d).0 ≡ ok tt
        → Loads py os (persist_over py os env (some p) rs audit_id state d).1 (some q)
        → (q.records ≡ rs) ⊎ (is_same_job q rs audit_id ≡ true)
    unfolding persist_over write_pending_print
    over_some-IsOfJob p rs audit_id state d q sound k h l =
        ground (arith, load-pending_json py os (submitted_job audit_id rs) sound)

    over-IsOfJob :
        (rs : List Fields) (audit_id : String) (state : PrintStage) (d : Disk)
        (q : PendingPrintAudit)
        → ((state' : PrintStage)
            → is_sound py os (record { state = state'; audit_id = audit_id; records = rs }) ≡ true)
        → (o : Option PendingPrintAudit) → Loads py os d o
        → (persist_over py os env o rs audit_id state d).0 ≡ ok tt
        → Loads py os (persist_over py os env o rs audit_id state d).1 (some q)
        → q.audit_id ≡ audit_id
        → IsOfJob q rs
    over-IsOfJob rs audit_id state d q sound none k h l i =
        inl (sym (over_none-IsOfJob rs audit_id state d q (sound state) h l))
    over-IsOfJob rs audit_id state d q sound (some p) k h l i =
        elim (over_some-IsOfJob p rs audit_id state d q (sound submitted) k h l) [
          | inl e ↦ inl (sym e)
          | inr s ↦ inr (subst (λ a. is_same_job q rs a ≡ true) (sym i) s)
        ]

    persisted-IsOfJob :
        (rs : List Fields) (audit_id : String) (state : PrintStage) (d : Disk)
        (q : PendingPrintAudit)
        → ((state' : PrintStage)
            → is_sound py os (record { state = state'; audit_id = audit_id; records = rs }) ≡ true)
        → (persist_pending_print py os env rs audit_id state d).0 ≡ ok tt
        → Loads py os (persist_pending_print py os env rs audit_id state d).1 (some q)
        → q.audit_id ≡ audit_id
        → IsOfJob q rs
    unfolding persist_pending_print
    persisted-IsOfJob rs audit_id state d q sound h l i =
        elim (Result-cases (load_pending_print py os d.pending)) [
          | inl (o, e) ↦
              over-IsOfJob rs audit_id state d q sound o e (ground arith) (ground arith) i
          | inr (x, e) ↦ ground arith
        ]

    record_moves :
        (audit_id submitted_at : Option String) (clear_pending : Bool) (args : PrintArgs) (d : Disk)
        → is_named_print args ≡ true
        → Moves py os d (record_print py os env audit_id submitted_at clear_pending args d).1
    unfolding record_print normalized_args
    record_moves audit_id submitted_at clear_pending args d n =
        let args' = normalized_args py os env audit_id submitted_at args in
        bind_moves py os env (build_print_records os env args')
          (λ records. persist_pending_print py os env records args'.audit_id submitted >>> λ _.
            settle py os env clear_pending records args'.audit_id)
          d (build_moves args' d)
          (λ rs h.
            bind_moves py os env (persist_pending_print py os env rs args'.audit_id submitted)
              (λ _. settle py os env clear_pending rs args'.audit_id) _
              (persist_pending_print_moves py os env rs args'.audit_id submitted _
                (λ state. built-is_sound args' d state n h))
              (λ _ k. settle_moves py os env clear_pending rs args'.audit_id _ (λ q l i.
                persisted-IsOfJob rs args'.audit_id submitted _ q
                  (λ state. built-is_sound args' d state n h) k l i)))

    pub after_print_call_refines :
        (call : PrintCall) (d : Disk)
        → is_named py os call ≡ true
        → Moves py os d (after_print_call py os env call d)
    unfolding after_print_call
    after_print_call_refines (on_prepare args) d n = prepare_moves args d n
    after_print_call_refines (on_mark audit_id) d n =
        mark_print_submitted_moves py os env audit_id d
    after_print_call_refines on_discard d n = discard_prepared_moves py os env d
    after_print_call_refines (on_recover assume_submitted clear_pending) d n =
        recover_moves assume_submitted clear_pending d
    after_print_call_refines (on_record audit_id submitted_at clear_pending args) d n =
        record_moves audit_id submitted_at clear_pending args d n
