-- ===== src/SecurityRevocation/Records/Intent.antt =====
-- The durable intent of a revocation (security_revocation.py).
use voucher_management_deskt.Calendar.{Calendar, normalize_now}
use voucher_management_deskt.Database.Queries.{
  has_event, is_revoked, is_revoke_requested, has_event-insert_event, insert_event, is_archived,
}
use voucher_management_deskt.Database.Action.{
  Result, ok, transaction, transaction-ok, ok_injective, Result-cases, guard-ok, value_error,
  missing_operator,
}
use voucher_management_deskt.Database.Rows.{
  Db, Details, text, flag, security_revoke_requested, operator, has_id,
}
use voucher_management_deskt.SecurityRevocation.Records.{
  request_in_transaction, is_live_row, record_security_revocation_request,
}
use voucher_management_deskt.Prelude.{
  refl, ℕ, String, Bool, Bool-cases, inl, ◌≡◌, true, arith, inr, false, ◌||◌, some, ◌∷◌, [],
  eqb_refl, ap, any_by, sym, ◌∙◌, ◌&&◌, not, is_empty, strip,
}

-- the history holds a request or a confirmed revocation
abbrev pub is_marked : ℕ → Db → Bool
is_marked k db = has_event is_revoked k db || has_event is_revoke_requested k db

-- a row that is there, and marked already: nothing is written
marked_already :
    (stamp user : String) (k : ℕ) (db : Db)
    → is_live_row k db ≡ true
    → is_marked k db ≡ true
    → request_in_transaction stamp user k db ≡ (ok true, db)
unfolding request_in_transaction
marked_already stamp user k db l m = rw (l, m) refl

-- what one call of the transaction does
record Marks (k : ℕ) (db : Db) (out : Result Bool × Db) : Type 0 where
  returned : out.0 ≡ ok (is_live_row k db)
  same_vouchers : out.1.vouchers ≡ db.vouchers
  marked : is_live_row k db ≡ true → is_marked k out.1 ≡ true
  untouched : is_live_row k db ≡ false → out.1 ≡ db

request-Marks :
    (stamp user : String) (k : ℕ) (db : Db) → Marks k db (request_in_transaction stamp user k db)
unfolding request_in_transaction insert_event
request-Marks stamp user k db = elim (Bool-cases (is_live_row k db)) [
  | inl l ↦ elim (Bool-cases (is_marked k db)) [
    | inl m ↦
        rw (l, m)
          (record {
            returned = rw l refl;
            same_vouchers = refl;
            marked = λ h. m;
            untouched = λ h. absurd (ground (arith, h, l));
          })
    | inr m ↦
        let details : Details = some (
          ("reason", text "printed_unused_threshold")
          ∷ ("remote_delete_confirmed", flag false)
          ∷ []) in
        let q =
          has_event-insert_event is_revoke_requested k k security_revoke_requested stamp operator
            (some user) details db in
        rw (l, m)
          (record {
            returned = rw l refl;
            same_vouchers = refl;
            marked = λ h. ground (arith, q, eqb_refl k);
            untouched = λ h. absurd (ground (arith, h, l));
          })
  ]
  | inr l ↦ rw l (record {
    returned = rw l refl;
    same_vouchers = refl;
    marked = λ h. absurd (ground (arith, h, l));
    untouched = λ h. refl;
  })
]

-- a transaction that marks, and the same transaction once more
pub record IsMarked (k : ℕ) (db db' : Db) : Type 0 where
  pub live : is_live_row k db ≡ true
  pub marked : is_marked k db' ≡ true
  pub same_vouchers : db'.vouchers ≡ db.vouchers

transaction-IsMarked :
    (stamp user : String) (k : ℕ) (db : Db)
    → (transaction (request_in_transaction stamp user k) db).0 ≡ ok true
    → IsMarked k db (transaction (request_in_transaction stamp user k) db).1
transaction-IsMarked stamp user k db h =
    let (p, q) = transaction-ok (request_in_transaction stamp user k) db h in
    let m = request-Marks stamp user k db in
    let l : is_live_row k db ≡ true = ok_injective (sym m.returned ∙ p) in
    rw q (record { live = l; marked = m.marked l; same_vouchers = m.same_vouchers })

transaction_again :
    (stamp user : String) (k : ℕ) (db db' : Db)
    → IsMarked k db db'
    → transaction (request_in_transaction stamp user k) db' ≡ (ok true, db')
unfolding transaction
transaction_again stamp user k db db' m =
    rw
      (marked_already stamp user k db'
        (ap (any_by (λ v. has_id k v && not (is_archived v))) m.same_vouchers ∙ m.live) m.marked)
      refl

-- An intent that is recorded is of a row that is there and not archived; afterwards the history holds a
-- request or a confirmed revocation of it, and no voucher has changed; and the same call once more
-- returns the same, and writes nothing.
pub intent_is_durable :
    (cal : Calendar) (k : ℕ) (requested_at user : String) (db : Db)
    → (record_security_revocation_request cal k requested_at user db).0 ≡ ok true
    → IsMarked k db (record_security_revocation_request cal k requested_at user db).1
      × (record_security_revocation_request cal k requested_at user
            (record_security_revocation_request cal k requested_at user db).1
          ≡ (ok true, (record_security_revocation_request cal k requested_at user db).1))
unfolding record_security_revocation_request
intent_is_durable cal k requested_at user db h =
    elim (Result-cases (normalize_now cal requested_at)) [
      | inr (x, e) ↦ absurd (ground (arith, rw e at h))
      | inl (stamp, e) ↦
          let (b, q) =
            guard-ok (is_empty (strip user)) (value_error missing_operator)
              (transaction (request_in_transaction stamp (strip user) k)) db (rw e at h) in
          let m = transaction-IsMarked stamp (strip user) k db (rw (e, b) at h) in
          rw (e, b) (m, transaction_again stamp (strip user) k db _ m)
    ]
