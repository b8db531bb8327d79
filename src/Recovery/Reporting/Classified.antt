-- ===== src/Recovery/Reporting/Classified.antt =====
-- What the reconciliation of create_reporting_recovery.py has done when it returns True.
use voucher_management_deskt.Database.Selection.{selected}
use voucher_management_deskt.Database.Created.Facts.{marks_created}
use voucher_management_deskt.Database.WellFormed.{IsWellFormed, row_at}
use voucher_management_deskt.Database.Rows.{Db, Voucher, application, not_printed}
use voucher_management_deskt.Prelude.{
  Option, ℕ, String, ◌≡◌, elem, Bool, ◌≢◌, ◌==◌, arith, clean_ids, true, ap, ◌⊎◌, ◌∙◌, some, inr,
  inl, strip, false, count_by, Bool-cases, ◌||◌, not, eqb, length, none, refl,
}
use voucher_management_deskt.Json.{Python}
use voucher_management_deskt.Recovery.Marker.{Marker, missing_file}
use voucher_management_deskt.Recovery.Reporting.{
  is_other, reconcile_loaded, mark_pending, PendingCreateReporting,
  reconcile_pending_create_reporting, load_pending_create_reporting,
}
use voucher_management_deskt.Database.Action.{
  Result, ok, err, os_error, Result-cases, transaction-ok, transaction_atomic,
}
use voucher_management_deskt.Database.Created.{mark_application_created_vouchers}

-- every remote id of the marker has a row, and the row has the classification of the marker
pub IsClassified : PendingCreateReporting → Db → Db → Type 0
IsClassified p db after =
    (u : String)
    → elem ◌==◌ u (clean_ids p.voucher_ids) ≡ true
    → (v : Voucher) × (row_at p.controller_id u db.vouchers ≡ some v)
      × (row_at p.controller_id u after.vouchers
          ≡ some (record v {
            origin = application;
            is_nominal = some p.is_nominal;
            print_state = not_printed;
            alignment_completed_at = some (strip p.confirmed_at);
            nominality_redacted = false;
          }))

mark_pending-IsClassified :
    (p : PendingCreateReporting) (db : Db) (r : Unit {0})
    → IsWellFormed db.vouchers
    → (mark_pending p db).0 ≡ ok r
    → IsClassified p db (mark_pending p db).1
unfolding IsClassified
mark_pending-IsClassified p db r w h u e =
    let work =
      mark_application_created_vouchers p.controller_id p.voucher_ids p.is_nominal p.confirmed_at in
    let (returned, written) = transaction-ok work db h in
    let (v, before, after) =
      marks_created p.controller_id p.voucher_ids p.is_nominal p.confirmed_at db w
        (ground (arith, returned)) u e in
    (v, before, ap (λ (d : Db). row_at p.controller_id u d.vouchers) written ∙ after)

-- What a reconciliation may have done: nothing; or it has classified the rows of the marker, and then it
-- returns True and the marker is gone, unless the removal fails: then it raises, and the marker stays.
abbrev pub IsReconciled :
    Bool → Marker → Db → Result (Option PendingCreateReporting) → Result Bool × Db × Marker → Type 0
IsReconciled unlink_fails marker db found out =
    ((r : Result Bool) × (r ≢ ok true) × (out ≡ (r, db, marker)))
    ⊎ ((p : PendingCreateReporting) × (after : Db) × (found ≡ ok (some p))
        × IsClassified p db after
        × (((unlink_fails ≡ false) × (out ≡ (ok true, after, missing_file)))
            ⊎ ((unlink_fails ≡ true) × (out ≡ (err os_error, after, marker)))))

reconcile_loaded-IsReconciled :
    (unlink_fails : Bool) (c : Option ℕ) (marker : Marker) (db : Db)
    → IsWellFormed db.vouchers
    → (found : Result (Option PendingCreateReporting))
    → IsReconciled unlink_fails marker db found (reconcile_loaded unlink_fails c marker found db)
unfolding reconcile_loaded
reconcile_loaded-IsReconciled unlink_fails c marker db w (err e) = inl (err e, ground arith, refl)
reconcile_loaded-IsReconciled unlink_fails c marker db w (ok none) =
    inl (ok false, ground arith, refl)
reconcile_loaded-IsReconciled unlink_fails c marker db w (ok (some p)) =
    let n = count_by (selected p.controller_id p.voucher_ids) db.vouchers in
    elim (Bool-cases (is_other c p.controller_id || not (eqb n (length p.voucher_ids)))) [
      | inl b ↦ inl (ok false, ground arith, ground arith)
      | inr b ↦ elim (Result-cases (mark_pending p db).0) [
        | inr (e, m) ↦ inl (
          err e,
          ground arith,
          ground (
            arith,
            transaction_atomic
                (mark_application_created_vouchers p.controller_id p.voucher_ids p.is_nominal
                  p.confirmed_at)
                db m,
          ),
        )
        | inl (r, m) ↦ inr (
          p,
          (mark_pending p db).1,
          refl,
          mark_pending-IsClassified p db r w m,
          elim (Bool-cases unlink_fails) [
            | inl f ↦ inr (f, ground arith)
            | inr f ↦ inl (f, ground arith)
          ],
        )
      ]
    ]

module _ (py : Python) (unlink_fails : Bool) (c : Option ℕ) (marker : Marker) (db : Db) where
  -- A reconciliation does not return True, and has changed neither the tables nor the marker; or it has
  -- classified a row for every remote id of the marker. Then it returns True and the marker is gone,
  -- unless the removal of the marker fails: then it raises, and the marker is still there.
  pub reconcile_reporting-IsClassified :
      IsWellFormed db.vouchers
      → IsReconciled unlink_fails marker db
          (load_pending_create_reporting py marker)
          (reconcile_pending_create_reporting py unlink_fails c marker db)
  unfolding reconcile_pending_create_reporting
  reconcile_reporting-IsClassified w =
      reconcile_loaded-IsReconciled unlink_fails c marker db w
        (load_pending_create_reporting py marker)
