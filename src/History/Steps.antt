-- ===== src/History/Steps.antt =====
-- The calls on the print journal of history.py as an abstract machine: what each may do to the journal
-- and to the descriptor of a pending print.
pub mod Markers
pub mod Recovered
pub mod Refined
pub mod Kept
pub mod Tests
use voucher_management_deskt.Database.Action.{ok}
use voucher_management_deskt.Recovery.Marker.{holds, missing_file}
use voucher_management_deskt.Prelude.{
  String, ◌≡◌, Option, Bool, List, not, is_nil, none, true, ◌&&◌, some, is_empty, ◌⊎◌,
}
use voucher_management_deskt.Json.{Python, obj, Fields}
use voucher_management_deskt.History.Base.{Platform, Env, Disk, write_lines, Line, Journal}
use voucher_management_deskt.History.Pending.{
  PendingPrintAudit, load_pending_print, is_same_job, pending_json, prepared, submitted,
  mark_print_submitted, discard_prepared_print_audit,
}
use voucher_management_deskt.History.Pending.RoundTrip.{is_sound}
use voucher_management_deskt.History.Records.{PrintArgs}
use voucher_management_deskt.History.Journal.{verify_print_job}
use voucher_management_deskt.History.Print.{
  prepare_print_audit, recover_pending_print_audit, record_print,
}

-- the records of the descriptor, up to the order of their fields
abbrev pub IsOfJob : PendingPrintAudit → List Fields → Type 0
IsOfJob p rs = (rs ≡ p.records) ⊎ (is_same_job p rs p.audit_id ≡ true)

abbrev pub submitted_job : String → List Fields → PendingPrintAudit
submitted_job audit_id rs = record { state = submitted; audit_id = audit_id; records = rs }

-- the calls, each with the faults and the inputs of its run
pub data PrintCall : Type 0 where
  on_prepare : PrintArgs → PrintCall
  on_mark : String → PrintCall
  on_discard : PrintCall
  on_recover : Bool → Bool → PrintCall
  on_record : Option String → Option String → Bool → PrintArgs → PrintCall

module _ (py : Python) (os : Platform) where
  abbrev pub Loads : Disk → Option PendingPrintAudit → Type 0
  Loads d o = load_pending_print py os d.pending ≡ ok o

  -- the marker that `_write_pending_print` leaves
  abbrev pub marked : Disk → PendingPrintAudit → Disk
  marked d p = record d { pending = holds (obj (pending_json p.state p.audit_id p.records)) }

  -- One change on disk. No change is made to a descriptor that says `submitted`, but to remove it once
  -- the journal has its rows; one that says `prepared` may be discarded.
  pub data Move : Disk → Disk → Type 0 where
    -- the identity of the journal alone
    idle : (d d' : Disk) → d'.journal ≡ d.journal → d'.pending ≡ d.pending → Move d d'
    grow : (d : Disk) (new : List Line) → Move d (record d { journal = write_lines new d.journal })
    start :
        (d : Disk) (p : PendingPrintAudit)
        → Loads d none
        → is_sound py os p ≡ true
        → Move d (marked d p)
    advance :
        (d : Disk) (p : PendingPrintAudit) (rs : List Fields)
        → Loads d (some p)
        → p.state ≡ prepared
        → IsOfJob p rs
        → is_sound py os (submitted_job p.audit_id rs) ≡ true
        → Move d (marked d (submitted_job p.audit_id rs))
    discard :
        (d : Disk) (p : PendingPrintAudit)
        → Loads d (some p)
        → p.state ≡ prepared
        → Move d (record d { pending = missing_file })
    retire :
        (d : Disk) (p : PendingPrintAudit) (rs : List Fields)
        → Loads d (some p)
        → IsOfJob p rs
        → verify_print_job py rs p.audit_id d.journal ≡ ok tt
        → Move d (record d { pending = missing_file })

  pub data Moves : Disk → Disk → Type 0 where
    here : (d : Disk) → Moves d d
    next : {d e f : Disk} → Move d e → Moves e f → Moves d f

  -- a print has a label, and its document a name
  abbrev pub is_named : PrintCall → Bool
  is_named (on_prepare args) =
      not (is_nil args.codes) && not (is_empty (os.file_name args.output_path))
  is_named (on_record _ _ _ args) =
      not (is_nil args.codes) && not (is_empty (os.file_name args.output_path))
  is_named _ = true

  -- what a call leaves on disk, also where it raises
  unfoldable pub after_print_call : Env → PrintCall → Disk → Disk
  after_print_call env (on_prepare args) d = (prepare_print_audit py os env args d).1
  after_print_call env (on_mark audit_id) d = (mark_print_submitted py os env audit_id d).1
  after_print_call env on_discard d = (discard_prepared_print_audit py os env d).1
  after_print_call env (on_recover assume_submitted clear_pending) d =
      (recover_pending_print_audit py os env assume_submitted clear_pending d).1
  after_print_call env (on_record audit_id submitted_at clear_pending args) d =
      (record_print py os env audit_id submitted_at clear_pending args d).1
