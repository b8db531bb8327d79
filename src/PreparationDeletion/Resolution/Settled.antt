-- ===== src/PreparationDeletion/Resolution/Settled.antt =====
-- What `reconcile_preparation_delete_requests` (preparation_deletion.py) makes of the log: the loop of
-- UPDATEs against a description of each event by itself.
use voucher_management_deskt.PreparationDeletion.Resolution.Loop.{
  update_one, update_all, Resolves, resolve_rows-Resolves,
}
use voucher_management_deskt.Database.Queries.{is_delete_requested}
use voucher_management_deskt.Database.Action.{ok}
use voucher_management_deskt.PreparationDeletion.Resolution.{
  Resolution, remote_id_of, closed_event, requests_of, Reconciled, merge_details, resolution,
  not_applied, deleted, still_pending, reconcile_preparation_delete_requests, pending_requests,
}
use voucher_management_deskt.Database.Rows.{
  Event, Voucher, Db, preparation_delete_not_applied, preparation_deleted,
}
use voucher_management_deskt.Prelude.{
  List, String, ℕ, map, Bool, elem, update_by, eqb, Option, some, is_unique, ◌≡◌, false,
  if◌then◌else◌, true, ◌∷◌, arith, Option-cases, eqb_refl, [], eqb_iff, none, inl, refl, inr,
  Bool-cases, ◌∙◌, ap, is_empty, strip, clean_ids, not, ◌==◌,
}

module _ (present absent : List String) (stamp : String) where
  -- what becomes of a request
  pub settled : Event → Resolution → Event
  settled e not_applied =
      closed_event preparation_delete_not_applied stamp
        (merge_details e.details stamp "fresh_snapshot_present") e
  settled e deleted =
      closed_event preparation_deleted stamp (merge_details e.details stamp "direct_uuid_not_found")
        e
  settled e still_pending = e

  abbrev event_ids : List Event → List ℕ
  event_ids es = map (λ (e : Event). e.id) es

  abbrev row_ids : List (Event × String) → List ℕ
  row_ids rows = map (λ (r : Event × String). r.0.id) rows

  -- an event that no row names is passed over
  update_one-other :
      (e : Event) (x : Resolution) (y : Event) (es : List Event)
      → eqb y.id e.id ≡ false
      → update_one present absent stamp e x (y ∷ es) ≡ y ∷ update_one present absent stamp e x es
  unfolding update_one
  update_one-other e not_applied y es h = rw h refl
  update_one-other e deleted y es h = rw h refl
  update_one-other e still_pending y es h = refl

  update_all-other :
      (rows : List (Event × String)) (y : Event) (es : List Event)
      → elem eqb y.id (row_ids rows) ≡ false
      → update_all present absent stamp rows (y ∷ es) ≡ y ∷ update_all present absent stamp rows es
  unfolding update_all
  update_all-other [] y es h = refl
  update_all-other ((e, u) ∷ rows) y es h =
      rw (update_one-other e (resolution present absent u) y es (ground arith)) (
        update_all-other rows y (update_one present absent stamp e (resolution present absent u) es)
          (ground arith))

  update_by-absent :
      (k : ℕ) (f : Event → Event) (es : List Event)
      → elem eqb k (event_ids es) ≡ false
      → update_by (λ x. eqb x.id k) f es ≡ es
  update_by-absent k f [] h = refl
  update_by-absent k f (y ∷ es) h =
      ground (arith, update_by-absent k f es, eqb_iff k y.id, eqb_iff y.id k)

  update_one-head :
      (e : Event) (x : Resolution) (es : List Event)
      → elem eqb e.id (event_ids es) ≡ false
      → update_one present absent stamp e x (e ∷ es) ≡ settled e x ∷ es
  unfolding update_one settled
  update_one-head e not_applied es h =
      rw
        (
          eqb_refl e.id,
          update_by-absent e.id
              (closed_event preparation_delete_not_applied stamp
                (merge_details e.details stamp "fresh_snapshot_present"))
              es h,
        )
        refl
  update_one-head e deleted es h =
      rw
        (
          eqb_refl e.id,
          update_by-absent e.id
              (closed_event preparation_deleted stamp
                (merge_details e.details stamp "direct_uuid_not_found"))
              es h,
        )
        refl
  update_one-head e still_pending es h = refl

  module _ (p : Voucher → Bool) (vs : List Voucher) where
    -- what becomes of one event, with the remote id of its voucher
    pub settle_found : Event → Option String → Event
    settle_found e none = e
    settle_found e (some u) =
        if not (is_delete_requested e.event_type)
        then e
        else if elem ◌==◌ u present
        then record e {
          event_type = preparation_delete_not_applied;
          occurred_at = stamp;
          details = merge_details e.details stamp "fresh_snapshot_present";
        }
        else if elem ◌==◌ u absent
        then record e {
          event_type = preparation_deleted;
          occurred_at = stamp;
          details = merge_details e.details stamp "direct_uuid_not_found";
        }
        else e

    -- the loop's turn on a request
    settle_found-requested :
        (e : Event) (u : String)
        → is_delete_requested e.event_type ≡ true
        → settled e (resolution present absent u) ≡ settle_found e (some u)
    unfolding settle_found settled closed_event resolution
    settle_found-requested e u d = elim (Bool-cases (elem ◌==◌ u present)) [
      | inl p ↦ rw (d, p) refl
      | inr p ↦ elim (Bool-cases (elem ◌==◌ u absent)) [
        | inl a ↦ rw (d, p, a) refl
        | inr a ↦ rw (d, p, a) refl
      ]
    ]

    settle_found-other :
        (e : Event) (u : String)
        → is_delete_requested e.event_type ≡ false
        → e ≡ settle_found e (some u)
    unfolding settle_found
    settle_found-other e u d = rw d refl

    settle_found-none : (e : Event) → e ≡ settle_found e none
    unfolding settle_found
    settle_found-none e = refl

    abbrev pub settle_event : Event → Event
    settle_event e = settle_found e (remote_id_of p vs e)

    not_joined :
        (k : ℕ) (es : List Event)
        → elem eqb k (event_ids es) ≡ false
        → elem eqb k (row_ids (requests_of p vs es)) ≡ false
    unfolding requests_of
    not_joined k [] h = refl
    not_joined k (e ∷ es) h = elim (Option-cases (remote_id_of p vs e)) [
      | inl n ↦ rw n (not_joined k es (ground arith))
      | inr (u, n) ↦ elim (Bool-cases (is_delete_requested e.event_type)) [
        | inl d ↦ rw (n, d) (ground (arith, not_joined k es))
        | inr d ↦ rw (n, d) (not_joined k es (ground arith))
      ]
    ]

    id-settled : (e : Event) (x : Resolution) → (settled e x).id ≡ e.id
    unfolding settled closed_event
    id-settled e not_applied = refl
    id-settled e deleted = refl
    id-settled e still_pending = refl

    pass :
        (e : Event) (es : List Event)
        → elem eqb e.id (event_ids es) ≡ false
        → update_all present absent stamp (requests_of p vs es) (e ∷ es)
          ≡ e ∷ update_all present absent stamp (requests_of p vs es) es
    pass e es h = update_all-other (requests_of p vs es) e es (not_joined e.id es h)

    take :
        (e : Event) (x : Resolution) (es : List Event)
        → elem eqb e.id (event_ids es) ≡ false
        → update_all present absent stamp
            (requests_of p vs es)
            (update_one present absent stamp e x (e ∷ es))
          ≡ settled e x ∷ update_all present absent stamp (requests_of p vs es) es
    take e x es h = rw (update_one-head e x es h) (
        update_all-other (requests_of p vs es) (settled e x) es
          (rw (id-settled e x) (not_joined e.id es h)))

    head : {x y : Event} {xs ys : List Event} → x ≡ y → xs ≡ ys → (x ∷ xs) ≡ (y ∷ ys)
    head p q = cc

    update_all-settles :
        (es : List Event)
        → is_unique eqb (event_ids es) ≡ true
        → update_all present absent stamp (requests_of p vs es) es ≡ map settle_event es
    unfolding requests_of update_all
    update_all-settles [] h = refl
    update_all-settles (e ∷ es) h =
        let ih = update_all-settles es (ground arith) in
        let fresh : elem eqb e.id (event_ids es) ≡ false = ground arith in
        elim (Option-cases (remote_id_of p vs e)) [
          | inl n ↦ rw n (pass e es fresh ∙ head (settle_found-none e) ih)
          | inr (u, n) ↦ elim (Bool-cases (is_delete_requested e.event_type)) [
            | inl d ↦
                rw (n, d)
                  (take e (resolution present absent u) es fresh
                    ∙ head (settle_found-requested e u d) ih)
            | inr d ↦ rw (n, d) (pass e es fresh ∙ head (settle_found-other e u d) ih)
          ]
        ]

-- Where the ids of the events are distinct, a reconciliation with a time returns, and does to the log,
-- event by event, what the list and the direct reads say of the voucher of a request: a request whose
-- voucher is in the list becomes NOT_APPLIED, one whose voucher is confirmed absent and not in the list
-- becomes DELETED, and every other event, and every other table, stays as it is.
pub reconciliation_settles :
    (c : ℕ) (present absent : List String) (observed_at : String) (db : Db)
    → is_unique eqb (map (λ (e : Event). e.id) db.events) ≡ true
    → is_empty (strip observed_at) ≡ false
    → (r : Reconciled) × ((reconcile_preparation_delete_requests c present absent observed_at db).0
        ≡ ok r)
      × ((reconcile_preparation_delete_requests c present absent observed_at db).1 ≡ record db {
        events =
            map
              (settle_event
                (clean_ids present)
                (clean_ids absent)
                (strip observed_at)
                (λ v. eqb v.controller_id c)
                db.vouchers)
              db.events;
      })
unfolding reconcile_preparation_delete_requests pending_requests Resolves
reconciliation_settles c present absent observed_at db h g =
    let (r, q, t) =
      resolve_rows-Resolves (clean_ids present) (clean_ids absent) (strip observed_at)
        (requests_of (λ v. eqb v.controller_id c) db.vouchers db.events) db in
    (
      r,
      rw g q,
      rw g (
          t
          ∙ ap (λ es. record db { events = es })
              (update_all-settles (clean_ids present) (clean_ids absent) (strip observed_at)
                (λ v. eqb v.controller_id c) db.vouchers db.events h)),
    )
