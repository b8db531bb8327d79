-- ===== src/SecurityRevocation/Reconciliation/Omission.antt =====
-- What a reconciliation (security_revocation.py) without a confirmed absence leaves alone.
use voucher_management_deskt.Database.Action.{Result-cases}
use voucher_management_deskt.Database.Queries.{has_event, is_revoked, is_revoke_requested}
use voucher_management_deskt.Calendar.{Calendar, normalize_now}
use voucher_management_deskt.Database.Rows.{
  Db, Voucher, Event, EventType, security_revoke_requested,
}
use voucher_management_deskt.SecurityRevocation.Reconciliation.{
  not_applied_event, reconcile_pending_security_revocations, close_if_present, close_present,
  ids_in, pending_rows,
}
use voucher_management_deskt.Prelude.{
  refl, clean_ids, from_keys, String, ◌≡◌, List, ℕ, ◌∷◌, [], any_by, eqb, inl, inr, ◌&&◌,
  Bool-cases, update_by, elem, is_empty, strip, arith, true, false,
}

none_absent : (vs : List Voucher) → ids_in (clean_ids []) vs ≡ []
unfolding clean_ids from_keys
none_absent [] = refl
none_absent (v ∷ vs) = none_absent vs

exclusive : (t : EventType) → is_revoke_requested t ≡ true → is_revoked t ≡ false
exclusive security_revoke_requested h = refl
exclusive _ h = ground arith

-- closing a request as not applied makes no event a revocation
not_revoked :
    (stamp user : String) (ks : List ℕ) (k : ℕ) (es : List Event)
    → any_by
        (λ (e : Event). eqb e.voucher_id k && is_revoked e.event_type)
        (update_by
          (λ e. elem eqb e.voucher_id ks && is_revoke_requested e.event_type)
          (not_applied_event stamp user)
          es)
      ≡ any_by (λ (e : Event). eqb e.voucher_id k && is_revoked e.event_type) es
unfolding not_applied_event
not_revoked stamp user ks k [] = refl
not_revoked stamp user ks k (e ∷ es) =
    ground (arith, not_revoked stamp user ks k es, exclusive e.event_type)

Keeps : Db → Db → Type 0
Keeps db db' =
    (db'.vouchers ≡ db.vouchers)
    × ((k : ℕ) → has_event is_revoked k db' ≡ has_event is_revoked k db)

close-Keeps :
    (cal : Calendar) (observed_at user : String) (ks : List ℕ) (db : Db)
    → Keeps db (close_if_present cal observed_at user ks db).1
unfolding close_if_present close_present Keeps
close-Keeps cal observed_at user [] db = (refl, λ k. refl)
close-Keeps cal observed_at user (j ∷ ks) db = elim (Result-cases (normalize_now cal observed_at)) [
  | inr (x, e) ↦ rw e (refl, λ k. refl)
  | inl (stamp, e) ↦ elim (Bool-cases (is_empty (strip user))) [
    | inl b ↦ rw (e, b) (refl, λ k. refl)
    | inr b ↦ rw (e, b) (refl, λ k. not_revoked stamp (strip user) (j ∷ ks) k db.events)
  ]
]

-- Without a confirmed absence, a reconciliation changes no voucher and confirms no revocation, whatever
-- the list holds or omits, and also when it raises.
pub omission_never_revokes :
    (cal : Calendar) (c : ℕ) (live_ids : List String) (observed_at user : String) (db : Db)
    → ((reconcile_pending_security_revocations cal c live_ids [] observed_at user db).1.vouchers
        ≡ db.vouchers)
      × ((k : ℕ)
          → has_event is_revoked k
              (reconcile_pending_security_revocations cal c live_ids [] observed_at user db).1
            ≡ has_event is_revoked k db)
unfolding reconcile_pending_security_revocations Keeps
omission_never_revokes cal c live_ids observed_at user db =
    let found = ids_in (clean_ids live_ids) (pending_rows c db) in
    elim (Result-cases (close_if_present cal observed_at user found db).0) [
      | inl (x, e) ↦
          rw (e, none_absent (pending_rows c db)) (close-Keeps cal observed_at user found db)
      | inr (x, e) ↦ rw e (close-Keeps cal observed_at user found db)
    ]
