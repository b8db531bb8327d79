-- ===== src/PreparationDeletion/Requests/Safety.antt =====
-- Which vouchers an intent to delete (preparation_deletion.py) may name, and what it leaves behind.
use voucher_management_deskt.Database.Queries.{
  insert_event, has_event, has_verified_print, is_delete_requested, select_remote,
  has_event-insert_event,
}
use voucher_management_deskt.Prelude.{
  refl, List, ℕ, ◌≡◌, String, Bool, none, false, arith, length, All, ◌+◌, ◌∷◌, true, Option-cases,
  ◌||◌, all_by, inl, inr, some, [], length-append, eqb_refl, ◌&&◌, map, ap, sym, ◌∙◌, clean_ids,
  suc, Bool-cases, is_nil, eqb, eqb_iff, is_empty, strip, and_intro,
}
use voucher_management_deskt.PreparationDeletion.Requests.{
  row_refusal, insert_requests, first_refusal, is_ordinary, is_invalid_external, request_selection,
  record_preparation_delete_requests, workflow, refuse_row, normalized_reason,
}
use voucher_management_deskt.Database.Rows.{
  Db, Voucher, preparation_delete_requested, operator, text, Details,
}
use voucher_management_deskt.Database.Action.{
  ok, transaction, Error, guard-ok, err, ok_injective, value_error, empty_selection, Result-cases,
  ◌>>◌, raise_if, missing_timestamp, missing_operator, transaction-ok,
}

-- a row that the tests of the loop let through
pub record MayBeDeleted (db : Db) (v : Voucher) : Type 0 where
  pub not_used : v.ever_used ≡ false
  pub not_printed : has_verified_print v.id db ≡ false
  pub not_pending : has_event is_delete_requested v.id db ≡ false
  pub qualifies : is_ordinary v || is_invalid_external db v ≡ true

row-MayBeDeleted : (db : Db) (v : Voucher) → row_refusal db v ≡ none → MayBeDeleted db v
unfolding row_refusal
row-MayBeDeleted db v h = record {
  not_used = ground arith;
  not_printed = ground arith;
  not_pending = ground arith;
  qualifies = ground arith;
}

all-MayBeDeleted :
    (db : Db) (vs : List Voucher) → first_refusal db vs ≡ none → All (MayBeDeleted db) vs
unfolding first_refusal
all-MayBeDeleted db [] h = tt
all-MayBeDeleted db (v ∷ vs) h = elim (Option-cases (row_refusal db v)) [
  | inl e ↦ (row-MayBeDeleted db v e, all-MayBeDeleted db vs (rw e at h))
  | inr (r, e) ↦ absurd (ground (arith, rw e at h))
]

abbrev pub is_requested : Db → ℕ → Bool
is_requested db k = has_event is_delete_requested k db

-- what the loop of INSERTs does
pub record IsRequested (plan : List (ℕ × String)) (db db' : Db) : Type 0 where
  pub vouchers : db'.vouchers ≡ db.vouchers
  pub prints : db'.prints ≡ db.prints
  pub logged : length db'.events ≡ length db.events + length plan
  pub kept : (k : ℕ) → is_requested db k ≡ true → is_requested db' k ≡ true
  pub requested : all_by (λ (e : ℕ × String). is_requested db' e.0) plan ≡ true

pub insert_requests-IsRequested :
    (reason stamp user : String) (plan : List (ℕ × String)) (db : Db)
    → ((insert_requests reason stamp user plan db).0 ≡ ok tt)
      × IsRequested plan db (insert_requests reason stamp user plan db).1
unfolding insert_requests insert_event
insert_requests-IsRequested reason stamp user [] db = (
  refl,
  record {
    vouchers = refl;
    prints = refl;
    logged = omega arith;
    kept = λ k h. h;
    requested = refl;
  },
)
insert_requests-IsRequested reason stamp user ((k, w) ∷ plan) db =
    let details : Details =
      some (("reason", text reason) ∷ ("requested_at", text stamp) ∷ ("workflow", text w) ∷ []) in
    let grows = λ (j : ℕ).
      has_event-insert_event is_delete_requested j k preparation_delete_requested stamp operator
        (some user) details db in
    let (q, r) =
      insert_requests-IsRequested reason stamp user plan
        (insert_event k preparation_delete_requested stamp operator (some user) details db).1 in
    (
      q,
      record {
        vouchers = r.vouchers;
        prints = r.prints;
        logged = omega (arith, r.logged, length-append {0});
        kept = λ j h. r.kept j (ground (arith, h, grows j));
        requested = and_intro (r.kept k (ground (arith, grows k, eqb_refl k))) r.requested;
      },
    )

-- what a call that returns has checked and written
pub record IsRequestedDeletion (c : ℕ) (ids : List String) (db db' : Db) (ks : List ℕ)
    : Type 0 where
  pub may_be_deleted : All (MayBeDeleted db) (select_remote c ids db)
  pub each_found : length (select_remote c ids db) ≡ length ids
  pub returned : ks ≡ map (λ (v : Voucher). v.id) (select_remote c ids db)
  pub each_requested : all_by (is_requested db') ks ≡ true
  pub same_vouchers : db'.vouchers ≡ db.vouchers
  pub logged : length db'.events ≡ length db.events + length ids

-- what the loop plans for the rows
abbrev pub plan_of : Db → List Voucher → List (ℕ × String)
plan_of db vs = map (λ (v : Voucher). (v.id, workflow db v)) vs

length-plan_of : (db : Db) (vs : List Voucher) → length (plan_of db vs) ≡ length vs
length-plan_of db [] = refl
length-plan_of db (v ∷ vs) = ap suc (length-plan_of db vs)

all_by-plan_of :
    (p : ℕ → Bool) (db : Db) (vs : List Voucher)
    → all_by (λ (e : ℕ × String). p e.0) (plan_of db vs) ≡ all_by p (map (λ (v : Voucher). v.id) vs)
all_by-plan_of p db [] = refl
all_by-plan_of p db (v ∷ vs) = ap (λ b. p v.id && b) (all_by-plan_of p db vs)

plan-IsRequestedDeletion :
    (reason stamp user : String) (c : ℕ) (ids : List String) (db : Db)
    → length (select_remote c ids db) ≡ length ids
    → first_refusal db (select_remote c ids db) ≡ none
    → IsRequestedDeletion c ids db
        (insert_requests reason stamp user (plan_of db (select_remote c ids db)) db).1
        (map (λ (v : Voucher). v.id) (select_remote c ids db))
plan-IsRequestedDeletion reason stamp user c ids db e f =
    let (q, r) =
      insert_requests-IsRequested reason stamp user (plan_of db (select_remote c ids db)) db in
    record {
      may_be_deleted = all-MayBeDeleted db (select_remote c ids db) f;
      each_found = e;
      returned = refl;
      each_requested = sym (all_by-plan_of _ db (select_remote c ids db)) ∙ r.requested;
      same_vouchers = r.vouchers;
      logged = omega (arith, r.logged, length-plan_of db (select_remote c ids db), e);
    }

selection-IsRequestedDeletion :
    (reason stamp user : String) (c : ℕ) (ids : List String) (db : Db) {ks : List ℕ}
    → (request_selection reason stamp user c ids db).0 ≡ ok ks
    → IsRequestedDeletion c ids db (request_selection reason stamp user c ids db).1 ks
unfolding request_selection refuse_row
selection-IsRequestedDeletion reason stamp user c ids db {ks} h =
    elim (Bool-cases (eqb (length (select_remote c ids db)) (length ids))) [
      | inl e ↦ elim (Option-cases (first_refusal db (select_remote c ids db))) [
        | inl f ↦
            let q =
              (insert_requests-IsRequested reason stamp user (plan_of db (select_remote c ids db))
                db).0 in
            rw (e, f, q)
              (rw (ok_injective (rw (e, f, q) at h)) at
                (plan-IsRequestedDeletion reason stamp user c ids db ((eqb_iff _ _).0 e) f))
        | inr (x, f) ↦ absurd (ground (arith, rw (e, f) at h))
      ]
      | inr e ↦ absurd (ground (arith, rw e at h))
    ]

-- the guards after the reason, and the transaction
in_transaction-IsRequestedDeletion :
    (why stamp user : String) (c : ℕ) (ids : List String) (db : Db) {ks : List ℕ}
    → ((do
      raise_if (is_empty (strip stamp)) (value_error missing_timestamp)
      raise_if (is_empty (strip user)) (value_error missing_operator)
      transaction (request_selection why (strip stamp) (strip user) c ids))
        db).0
      ≡ ok ks
    → IsRequestedDeletion c ids db
        ((do
          raise_if (is_empty (strip stamp)) (value_error missing_timestamp)
          raise_if (is_empty (strip user)) (value_error missing_operator)
          transaction (request_selection why (strip stamp) (strip user) c ids))
          db).1
        ks
in_transaction-IsRequestedDeletion why stamp user c ids db h =
    let (a, p) = guard-ok (is_empty (strip stamp)) (value_error missing_timestamp) _ db h in
    let (b, q) = guard-ok (is_empty (strip user)) (value_error missing_operator) _ db (rw p at h) in
    let (k, w) =
      transaction-ok (request_selection why (strip stamp) (strip user) c ids) db (rw (p, q) at h) in
    rw (p, q, w) (selection-IsRequestedDeletion why (strip stamp) (strip user) c ids db k)

-- A call that records an intent to delete has found as many rows as there are ids; each of them was
-- never used, has no verified print, had no open request, and is either aligned as not printed or an
-- incomplete row of the controller. The call returns the ids of these rows; afterwards each has an open
-- request, the log has one event more for each id, and no voucher has changed.
pub requested_deletions_are_safe :
    (c : ℕ) (ids : List String) (reason stamp user : String) (db : Db) {ks : List ℕ}
    → (record_preparation_delete_requests c ids reason stamp user db).0 ≡ ok ks
    → IsRequestedDeletion c
        (clean_ids ids)
        db
        (record_preparation_delete_requests c ids reason stamp user db).1
        ks
unfolding record_preparation_delete_requests
requested_deletions_are_safe c ids reason stamp user db {ks} h =
    let (a, p) = guard-ok (is_nil (clean_ids ids)) (value_error empty_selection) _ db h in
    elim (Result-cases (normalized_reason reason)) [
      | inl (why, e) ↦
          rw (p, e)
            (in_transaction-IsRequestedDeletion why stamp user c (clean_ids ids) db
              (rw (p, e) at h))
      | inr (x, e) ↦ absurd (ground (arith, rw (p, e) at h))
    ]

-- A request that raises has changed nothing.
pub request_atomic :
    (c : ℕ) (ids : List String) (reason stamp user : String) (db : Db) {e : Error}
    → (record_preparation_delete_requests c ids reason stamp user db).0 ≡ err e
    → (record_preparation_delete_requests c ids reason stamp user db).1 ≡ db
unfolding record_preparation_delete_requests transaction
request_atomic c ids reason stamp user db h = elim (Result-cases (normalized_reason reason)) [
  | inl (r, e) ↦ ground (arith, e)
  | inr (x, e) ↦ ground (arith, e)
]
