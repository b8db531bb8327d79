-- ===== src/PreparationDeletion/Resolution/Loop.antt =====
-- The loop of `reconcile_preparation_delete_requests` (preparation_deletion.py) as one change of the log.
use voucher_management_deskt.Database.Action.{Result, ok}
use voucher_management_deskt.PreparationDeletion.Resolution.{
  resolve_rows, resolve_request, Resolution, closed_event, close_event, Reconciled, merge_details,
  resolution, not_applied, deleted, still_pending,
}
use voucher_management_deskt.Database.Rows.{
  Event, Db, preparation_delete_not_applied, preparation_deleted,
}
use voucher_management_deskt.Prelude.{List, String, update_by, eqb, ◌≡◌, ◌∷◌, [], refl}

module _ (present absent : List String) (stamp : String) where
  -- the UPDATE of one row, on a list of events
  unfoldable pub update_one : Event → Resolution → List Event → List Event
  update_one e not_applied es =
      update_by (λ x. eqb x.id e.id)
        (closed_event preparation_delete_not_applied stamp
          (merge_details e.details stamp "fresh_snapshot_present"))
        es
  update_one e deleted es =
      update_by (λ x. eqb x.id e.id)
        (closed_event preparation_deleted stamp
          (merge_details e.details stamp "direct_uuid_not_found"))
        es
  update_one e still_pending es = es

  unfoldable pub update_all : List (Event × String) → List Event → List Event
  update_all [] es = es
  update_all ((e, u) ∷ rows) es = update_all rows (update_one e (resolution present absent u) es)

  unfoldable pub Resolves : List (Event × String) → Db → Result Reconciled × Db → Type 0
  Resolves rows db out =
      (r : Reconciled) × (out.0 ≡ ok r) × (out.1 ≡ record db { events = update_all rows db.events })

  pub resolve_rows-Resolves :
      (rows : List (Event × String)) (db : Db)
      → Resolves rows db (resolve_rows present absent stamp rows db)
  unfolding resolve_rows resolve_request close_event Resolves update_all update_one
  resolve_rows-Resolves [] db = (_, refl, refl)
  resolve_rows-Resolves ((e, u) ∷ rows) db =
      go (resolution present absent u)
        (λ es. resolve_rows-Resolves rows (record db { events = es }))
    where
      go :
          (x : Resolution)
          → ((es : List Event)
              → Resolves rows
                  (record db { events = es })
                  (resolve_rows present absent stamp rows (record db { events = es })))
          → (r : Reconciled) × ((resolve_request present absent stamp e x
                (resolve_rows present absent stamp rows)
                db).0
              ≡ ok r)
            × ((resolve_request present absent stamp e x
                  (resolve_rows present absent stamp rows)
                  db).1
                ≡ record db { events = update_all rows (update_one e x db.events) })
      go not_applied ih =
          let (r, q, t) = ih (update_one e not_applied db.events) in
          (record r { not_applied_ids = e.voucher_id ∷ r.not_applied_ids }, rw q refl, rw q t)
      go deleted ih =
          let (r, q, t) = ih (update_one e deleted db.events) in
          (record r { deleted_ids = e.voucher_id ∷ r.deleted_ids }, rw q refl, rw q t)
      go still_pending ih = ih db.events
