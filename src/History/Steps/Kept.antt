-- ===== src/History/Steps/Kept.antt =====
-- What holds of the print journal of history.py after every sequence of calls.
use voucher_management_deskt.Recovery.Marker.{missing_file}
use voucher_management_deskt.Database.Action.{ok}
use voucher_management_deskt.Prelude.{
  String, ◌≡◌, some, inl, List, Option, subst, ◌⊎◌, ap, ◌++◌, refl, ◌∙◌, inr, ++-assoc, none, true,
  arith, all_by, ◌∷◌, [],
}
use voucher_management_deskt.Json.{Python, Fields}
use voucher_management_deskt.History.Base.{
  Platform, Env, Disk, Line, Journal, write_lines, lines, absent, unreadable,
}
use voucher_management_deskt.History.Pending.{PendingPrintAudit, load_pending_print}
use voucher_management_deskt.History.Pending.RoundTrip.{load-pending_json}
use voucher_management_deskt.History.Journal.{verify_print_job}
use voucher_management_deskt.History.Steps.{
  Move, Moves, Loads, IsOfJob, PrintCall, is_named, after_print_call, submitted_job, idle, here,
  grow, next, start, advance, discard, retire,
}
use voucher_management_deskt.History.Steps.Markers.{Moves-trans}
use voucher_management_deskt.History.Steps.Refined.{after_print_call_refines}
use voucher_management_deskt.Recovery.Intent.{is_digest, lower}

write_lines-write_lines :
    (new newer : List Line) (j : Journal)
    → write_lines newer (write_lines new j) ≡ write_lines (new ++ newer) j
unfolding write_lines
write_lines-write_lines new newer absent = refl
write_lines-write_lines new newer unreadable = refl
write_lines-write_lines new newer (lines ls) = ap lines (++-assoc ls new newer)

-- the journal of `d'` is that of `d` with more lines, or the file is as it was
abbrev pub IsExtended : Journal → Journal → Type 0
IsExtended j j' = (j' ≡ j) ⊎ ((new : List Line) × (j' ≡ write_lines new j))

IsExtended-trans : (i j k : Journal) → IsExtended i j → IsExtended j k → IsExtended i k
IsExtended-trans i j k (inl e) m = subst (λ x. IsExtended x k) e m
IsExtended-trans i j k (inr (new, e)) (inl f) = inr (new, f ∙ e)
IsExtended-trans i j k (inr (new, e)) (inr (newer, f)) =
    inr (new ++ newer, f ∙ ap (write_lines newer) e ∙ write_lines-write_lines new newer i)

module _ (py : Python) (os : Platform) where
  Move-IsExtended : {d e : Disk} → Move py os d e → IsExtended d.journal e.journal
  Move-IsExtended (idle d e j p) = inl j
  Move-IsExtended (grow d new) = inr (new, refl)
  Move-IsExtended (start d p h s) = inl refl
  Move-IsExtended (advance d p rs h s j k) = inl refl
  Move-IsExtended (discard d p h s) = inl refl
  Move-IsExtended (retire d p rs h j v) = inl refl

  Moves-IsExtended : {d e : Disk} → Moves py os d e → IsExtended d.journal e.journal
  Moves-IsExtended (here d) = inl refl
  Moves-IsExtended (next m ms) = IsExtended-trans _ _ _ (Move-IsExtended m) (Moves-IsExtended ms)

  -- `_load_pending_print` does not raise
  abbrev pub IsReadable : Disk → Type 0
  IsReadable d = (o : Option PendingPrintAudit) × Loads py os d o

  Move-IsReadable : {d e : Disk} → Move py os d e → IsReadable d → IsReadable e
  unfolding load_pending_print
  Move-IsReadable (idle d e j p) (o, h) = (o, ap (load_pending_print py os) p ∙ h)
  Move-IsReadable (grow d new) r = r
  Move-IsReadable (start d p h s) r = (some p, load-pending_json py os p s)
  Move-IsReadable (advance d p rs h s j k) r =
      (some (submitted_job p.audit_id rs), load-pending_json py os (submitted_job p.audit_id rs) k)
  Move-IsReadable (discard d p h s) r = (none, refl)
  Move-IsReadable (retire d p rs h j v) r = (none, refl)

  Moves-IsReadable : {d e : Disk} → Moves py os d e → IsReadable d → IsReadable e
  Moves-IsReadable (here d) r = r
  Moves-IsReadable (next m ms) r = Moves-IsReadable ms (Move-IsReadable m r)

  -- the descriptor was removed at `e`, where the journal had the rows of the print
  abbrev pub IsRetired : PendingPrintAudit → Disk → Disk → Type 0
  IsRetired p d d' =
      (e : Disk) × Moves py os d e
      × Loads py os e (some p)
      × ((rs : List Fields) × IsOfJob p rs × (verify_print_job py rs p.audit_id e.journal ≡ ok tt))
      × Moves py os (record e { pending = missing_file }) d'

  -- calls one after another, each with its faults
  unfoldable pub run : List (Env × PrintCall) → Disk → Disk
  run [] d = d
  run (c ∷ calls) d = run calls (after_print_call py os c.0 c.1 d)

  module _ (hex : (k m : String) → is_digest (lower (os.hmac k m)) ≡ true)
      (bare : (path : String) → os.file_name (os.file_name path) ≡ os.file_name path) where
    run_moves :
        (calls : List (Env × PrintCall)) (d : Disk)
        → all_by (λ (c : Env × PrintCall). is_named py os c.1) calls ≡ true
        → Moves py os d (run calls d)
    unfolding run
    run_moves [] d n = here d
    run_moves (c ∷ calls) d n =
        Moves-trans py os c.0 (after_print_call_refines py os c.0 hex bare c.1 d (ground arith))
          (run_moves calls (after_print_call py os c.0 c.1 d) (ground arith))

    -- On a platform whose digests are 64 hexadecimal digits and whose names of files have no folder: from
    -- a disk whose descriptor is missing or can be read, after every sequence of calls on prints with a
    -- label and a document name, each with its own faults, the descriptor is missing or can be read
    -- again, and the journal is as it was or has lines added at its end.
    pub run_keeps :
        (calls : List (Env × PrintCall)) (d : Disk)
        → all_by (λ (c : Env × PrintCall). is_named py os c.1) calls ≡ true
        → IsReadable d
        → IsReadable (run calls d) × IsExtended d.journal (run calls d).journal
    run_keeps calls d n r =
        let ms = run_moves calls d n in (Moves-IsReadable ms r, Moves-IsExtended ms)
