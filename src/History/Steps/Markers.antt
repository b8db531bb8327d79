-- ===== src/History/Steps/Markers.antt =====
-- The calls of history.py on the descriptor of a pending print as moves of the abstract machine.
use voucher_management_deskt.History.Pending.RoundTrip.{is_sound, load_pending_print-is_sound}
use voucher_management_deskt.Recovery.Marker.{missing_file}
use voucher_management_deskt.Database.Action.{ok, Result, err, Result-cases}
use voucher_management_deskt.Prelude.{
  String, List, ◌≡◌, some, ◌∷◌, none, [], arith, false, refl, ◌⊎◌, inl, inr, Option, eq_iff, true,
  ◌∙◌, ap, sym, subst,
}
use voucher_management_deskt.Json.{Python, Fields}
use voucher_management_deskt.History.Base.{
  Platform, Env, Disk, Action, ◌>>>◌, continue, append, flushed, reads,
}
use voucher_management_deskt.History.Identity.{usable_secret}
use voucher_management_deskt.History.Identity.Kept.{usable_secret-IsFramed}
use voucher_management_deskt.History.Pending.{
  PendingPrintAudit, submit_loaded, mark_print_submitted, write_pending_print, PrintStage,
  is_submitted, prepared, submitted, load_pending_print, clear_loaded, discard_loaded,
  discard_prepared_print_audit, clear_pending_print, persist_over, is_same_job,
  persist_pending_print,
}
use voucher_management_deskt.History.Steps.{
  Move, Moves, here, idle, next, grow, advance, marked, Loads, discard, submitted_job, start,
}

not_submitted : (state : PrintStage) → is_submitted state ≡ false → state ≡ prepared
not_submitted prepared h = refl
not_submitted submitted h = cc

module _ (py : Python) (os : Platform) (env : Env) where
  pub Moves-trans : {d e f : Disk} → Moves py os d e → Moves py os e f → Moves py os d f
  Moves-trans (here d) n = n
  Moves-trans (next m ms) n = next m (Moves-trans ms n)

  pub one : {d e : Disk} → Move py os d e → Moves py os d e
  one {e} m = next m (here e)

  continue_moves :
      {A B : Type 0} (r : Result A) (f : A → Action B) (d d' : Disk)
      → Moves py os d d'
      → ((a : A) → r ≡ ok a → Moves py os d' (f a d').1)
      → Moves py os d (continue r f d').1
  continue_moves (ok a) f d d' ms k = Moves-trans ms (k a refl)
  continue_moves (err e) f d d' ms k = ms

  -- the moves of a statement, and those of the rest where it returns
  pub bind_moves :
      {A B : Type 0} (m : Action A) (f : A → Action B) (d : Disk)
      → Moves py os d (m d).1
      → ((a : A) → (m d).0 ≡ ok a → Moves py os (m d).1 (f a (m d).1).1)
      → Moves py os d ((m >>> f) d).1
  bind_moves m f d ms k = continue_moves (m d).0 f d (m d).1 ms k

  pub usable_secret_moves : (d : Disk) → Moves py os d (usable_secret os env d).1
  usable_secret_moves d =
      let (j, p) = usable_secret-IsFramed os env d in one (idle d (usable_secret os env d).1 j p)

  pub append_moves : (rs : List Fields) (d : Disk) → Moves py os d (append env rs d).1
  unfolding append
  append_moves [] d = here d
  append_moves (r ∷ rs) d = one (grow d (flushed env.append_stops (r ∷ rs)))

  pub at_rest : {d' : Disk} (d : Disk) → d' ≡ d → Moves py os d d'
  at_rest d e = rw e (here d)

  submit_loaded-none :
      (audit_id : String) (d : Disk) → (submit_loaded py os env none audit_id d).1 ≡ d
  unfolding submit_loaded
  submit_loaded-none audit_id d = refl

  clear_loaded-none :
      (audit_id : String) (d : Disk) → (clear_loaded py os env none audit_id d).1 ≡ d
  unfolding clear_loaded
  clear_loaded-none audit_id d = refl

  sound_job :
      (d : Disk) (p : PendingPrintAudit)
      → Loads py os d (some p)
      → is_sound py os (submitted_job p.audit_id p.records) ≡ true
  sound_job d p h = load_pending_print-is_sound py os d.pending h

  submit_loaded-cases :
      (p : PendingPrintAudit) (audit_id : String) (d : Disk)
      → let d' = (submit_loaded py os env (some p) audit_id d).1 in
        (d' ≡ d)
        ⊎ ((p.state ≡ prepared) × (d' ≡ marked py os d (submitted_job p.audit_id p.records)))
  unfolding submit_loaded write_pending_print
  submit_loaded-cases p audit_id d = ground arith

  submit_loaded_moves :
      (audit_id : String) (d : Disk) (o : Option PendingPrintAudit)
      → Loads py os d o
      → Moves py os d (submit_loaded py os env o audit_id d).1
  submit_loaded_moves audit_id d none h = at_rest d (submit_loaded-none audit_id d)
  submit_loaded_moves audit_id d (some p) h = elim (submit_loaded-cases p audit_id d) [
    | inl e ↦ at_rest d e
    | inr (s, e) ↦ rw e (one (advance d p p.records h s (inl refl) (sound_job d p h)))
  ]

  pub mark_print_submitted_moves :
      (audit_id : String) (d : Disk) → Moves py os d (mark_print_submitted py os env audit_id d).1
  unfolding mark_print_submitted
  mark_print_submitted_moves audit_id d =
      bind_moves (reads (λ d. load_pending_print py os d.pending))
        (λ o. submit_loaded py os env o audit_id) d (here d) (submit_loaded_moves audit_id d)

  clear_loaded-cases :
      (p : PendingPrintAudit) (audit_id : String) (d : Disk)
      → let d' = (clear_loaded py os env (some p) audit_id d).1 in
        (d' ≡ d) ⊎ ((p.audit_id ≡ audit_id) × (d' ≡ record d { pending = missing_file }))
  unfolding clear_loaded
  clear_loaded-cases p audit_id d = ground (arith, eq_iff p.audit_id audit_id)

  clear_loaded_moves :
      (audit_id : String) (d : Disk)
      → ((p : PendingPrintAudit)
          → Loads py os d (some p)
          → p.audit_id ≡ audit_id
          → Move py os d (record d { pending = missing_file }))
      → (o : Option PendingPrintAudit) → Loads py os d o
      → Moves py os d (clear_loaded py os env o audit_id d).1
  clear_loaded_moves audit_id d k none h = at_rest d (clear_loaded-none audit_id d)
  clear_loaded_moves audit_id d k (some p) h = elim (clear_loaded-cases p audit_id d) [
    | inl e ↦ at_rest d e
    | inr (s, e) ↦ rw e (one (k p h s))
  ]

  -- the removal of a descriptor, where the machine may remove it
  pub clear_pending_print_moves :
      (audit_id : String) (d : Disk)
      → ((p : PendingPrintAudit)
          → Loads py os d (some p)
          → p.audit_id ≡ audit_id
          → Move py os d (record d { pending = missing_file }))
      → Moves py os d (clear_pending_print py os env audit_id d).1
  unfolding clear_pending_print
  clear_pending_print_moves audit_id d k =
      bind_moves (reads (λ d. load_pending_print py os d.pending))
        (λ o. clear_loaded py os env o audit_id) d (here d) (clear_loaded_moves audit_id d k)

  discard_loaded-cases :
      (p : PendingPrintAudit) (d : Disk)
      → let d' = (discard_loaded py os env (some p) d).1 in
        (d' ≡ d) ⊎ ((p.state ≡ prepared) × (d' ≡ (clear_pending_print py os env p.audit_id d).1))
  unfolding discard_loaded
  discard_loaded-cases p d = elim (Result-cases (clear_pending_print py os env p.audit_id d).0) [
    | inl (a, e) ↦ ground arith
    | inr (x, e) ↦ ground arith
  ]

  discard_loaded_moves :
      (d : Disk) (o : Option PendingPrintAudit)
      → Loads py os d o
      → Moves py os d (discard_loaded py os env o d).1
  unfolding discard_loaded
  discard_loaded_moves d none h = here d
  discard_loaded_moves d (some p) h = elim (discard_loaded-cases p d) [
    | inl e ↦ at_rest d e
    | inr (s, e) ↦ rw e (clear_pending_print_moves p.audit_id d (λ q l i. discard d p h s))
  ]

  pub discard_prepared_moves :
      (d : Disk) → Moves py os d (discard_prepared_print_audit py os env d).1
  unfolding discard_prepared_print_audit
  discard_prepared_moves d =
      bind_moves (reads (λ d. load_pending_print py os d.pending)) (discard_loaded py os env) d
        (here d) (discard_loaded_moves d)

  persist_none-cases :
      (rs : List Fields) (audit_id : String) (state : PrintStage) (d : Disk)
      → let d' = (persist_over py os env none rs audit_id state d).1 in
        (d' ≡ d)
        ⊎ (d' ≡ marked py os d (record { state = state; audit_id = audit_id; records = rs }))
  unfolding persist_over write_pending_print
  persist_none-cases rs audit_id state d = ground arith

  persist_some-cases :
      (p : PendingPrintAudit) (rs : List Fields) (audit_id : String) (state : PrintStage) (d : Disk)
      → let d' = (persist_over py os env (some p) rs audit_id state d).1 in
        (d' ≡ d)
        ⊎ ((p.state ≡ prepared)
            × (p.audit_id ≡ audit_id)
            × (is_same_job p rs audit_id ≡ true)
            × (d' ≡ marked py os d (submitted_job audit_id rs)))
  unfolding persist_over write_pending_print is_same_job
  persist_some-cases p rs audit_id state d = ground (arith, eq_iff p.audit_id audit_id)

  persist_over_moves :
      (rs : List Fields) (audit_id : String) (state : PrintStage) (d : Disk)
      → ((state' : PrintStage)
          → is_sound py os (record { state = state'; audit_id = audit_id; records = rs }) ≡ true)
      → (o : Option PendingPrintAudit) → Loads py os d o
      → Moves py os d (persist_over py os env o rs audit_id state d).1
  persist_over_moves rs audit_id state d sound none h =
      elim (persist_none-cases rs audit_id state d) [
        | inl e ↦ at_rest d e
        | inr e ↦ rw e (one (start d _ h (sound state)))
      ]
  persist_over_moves rs audit_id state d sound (some p) h =
      elim (persist_some-cases p rs audit_id state d) [
        | inl e ↦ at_rest d e
        | inr (s, i, j, e) ↦ rw (e ∙ ap (λ a. marked py os d (submitted_job a rs)) (sym i)) (
            one (
              advance d p rs h s (inr (subst (λ a. is_same_job p rs a ≡ true) (sym i) j)) (
                subst (λ a. is_sound py os (submitted_job a rs) ≡ true) (sym i) (sound submitted))))
      ]

  pub persist_pending_print_moves :
      (rs : List Fields) (audit_id : String) (state : PrintStage) (d : Disk)
      → ((state' : PrintStage)
          → is_sound py os (record { state = state'; audit_id = audit_id; records = rs }) ≡ true)
      → Moves py os d (persist_pending_print py os env rs audit_id state d).1
  unfolding persist_pending_print
  persist_pending_print_moves rs audit_id state d sound =
      bind_moves (reads (λ d. load_pending_print py os d.pending))
        (λ o. persist_over py os env o rs audit_id state) d (here d)
        (persist_over_moves rs audit_id state d sound)
