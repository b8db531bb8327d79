-- ===== src/History/Print/Completed.antt =====
-- `recover_pending_print_audit` of history.py after an interrupted run.
use voucher_management_deskt.Recovery.Marker.{missing_file}
use voucher_management_deskt.Database.Action.{ok}
use voucher_management_deskt.Prelude.{
  ◌≡◌, List, Bool, true, some, false, is_empty, ◌++◌, arith, eq_refl, map, any_by, all_by,
  is_unique, ◌==◌, none, ap,
}
use voucher_management_deskt.Json.{Fields, Python}
use voucher_management_deskt.History.Base.{Platform, Env, Disk, Line, row, read_lines, lines}
use voucher_management_deskt.History.Identity.{is_usable, usable_secret}
use voucher_management_deskt.History.Pending.{
  PendingPrintAudit, load_pending_print, clear_pending_print, clear_loaded, is_audit_id, submitted,
}
use voucher_management_deskt.History.Pending.RoundTrip.{load_pending_print-is_sound}
use voucher_management_deskt.History.Journal.{is_job_row}
use voucher_management_deskt.History.Print.{
  recover_pending_print_audit, recover_loaded, settle, record_print_records,
}
use voucher_management_deskt.History.Print
use voucher_management_deskt.History.Print.Behind.{is_plain}
use voucher_management_deskt.History.Print.Distinct.{vouchers}
use voucher_management_deskt.History.Print.Resumed.{record_print_records_resumes}

module _ (py : Python) (os : Platform) (env : Env) where
  clears :
      (p : PendingPrintAudit) (d : Disk)
      → load_pending_print py os d.pending ≡ ok (some p)
      → env.unlink_fails ≡ false
      → clear_pending_print py os env p.audit_id d ≡ (ok tt, record d { pending = missing_file })
  unfolding clear_pending_print clear_loaded
  clears p d l f = ground (arith, eq_refl p.audit_id)

  named :
      (p : PendingPrintAudit) (d : Disk)
      → load_pending_print py os d.pending ≡ ok (some p)
      → is_empty p.audit_id ≡ false
  unfolding is_audit_id
  named p d l = ground (arith, load_pending_print-is_sound py os d.pending l)

  -- A descriptor that says `submitted`, with a key that is usable and a disk that refuses nothing: where
  -- the journal has some of the first records of the print behind rows of other jobs (an append that was
  -- interrupted), recovery returns, the journal has each record once, and the descriptor is gone. The
  -- vouchers of the records are distinct, and what is compared in them are texts and numbers.
  pub recover_pending_print_audit-completes :
      (p : PendingPrintAudit) (xs ys : List Fields) (ls : List Line) (d : Disk)
      (assume_submitted : Bool)
      → is_usable os d ≡ true
      → load_pending_print py os d.pending ≡ ok (some p)
      → p.state ≡ submitted
      → p.records ≡ xs ++ ys
      → d.journal ≡ lines (ls ++ map row xs)
      → (read_lines ls).1 ≡ false
      → any_by (is_job_row p.audit_id) (read_lines ls).0 ≡ false
      → all_by (is_plain py p.audit_id) (xs ++ ys) ≡ true
      → is_unique ◌==◌ (vouchers py p.audit_id (xs ++ ys)) ≡ true
      → env.append_stops ≡ none
      → env.unlink_fails ≡ false
      → recover_pending_print_audit py os env assume_submitted true d
        ≡ (ok true, record d { journal = lines (ls ++ map row (xs ++ ys)); pending = missing_file })
  unfolding recover_pending_print_audit recover_loaded settle Print.complete usable_secret
  recover_pending_print_audit-completes p xs ys ls d assume_submitted k l s r j t o h u a f =
      let d' : Disk = record d { journal = lines (ls ++ map row (xs ++ ys)) } in
      ground (
        arith,
        ap (λ rs. record_print_records py os env rs p.audit_id d) r,
        record_print_records_resumes py p.audit_id ls t o os env a xs ys d j (named p d l) h u,
        clears p d' l f,
      )
