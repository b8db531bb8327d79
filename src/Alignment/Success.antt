-- ===== src/Alignment/Success.antt =====
-- What a call of `align_local_vouchers` (alignment.py) that returns has done.
use voucher_management_deskt.Alignment.Evidence.{
  IsAlignedAs, Aligns, evidence_agrees, align_rows-total, all_aligned, all-IsCovered, agrees,
}
use voucher_management_deskt.Database.Action.{
  ok, transaction, Action, Error, ◌>>◌, raise_if, value_error, empty_selection, missing_timestamp,
  missing_operator, transaction-ok,
}
use voucher_management_deskt.Database.Rows.{PrintState, Voucher, Db}
use voucher_management_deskt.Alignment.{
  align_selection, aligned_row, refuse, in_selection, AlignmentResult, refusal, align_rows,
  align_vouchers, with_state, parse_print_state,
}
use voucher_management_deskt.Prelude.{
  true, false, Bool, ℕ, String, List, All, ◌≡◌, refl, length, all_by, Bool-cases, eqb, filter_by,
  inl, Option-cases, eqb_iff, inr, arith, ◌+◌, none, some, from_keys, is_nil, is_empty, strip,
}

pub record IsAlignment (n : Bool) (state : PrintState) (sel : Voucher → Bool) (k : ℕ) (db db' : Db)
    (r : AlignmentResult) : Type 0 where
  pub is_aligned : All (λ v. sel v ≡ true → IsAlignedAs n state v) db'.vouchers
  pub has_evidence : all_by (evidence_agrees state db) (filter_by sel db.vouchers) ≡ true
  pub is_complete : length r.updated_ids + length r.unchanged_ids ≡ k
  pub is_logged : length db'.events ≡ length db.events + length r.updated_ids

rows-IsAlignment :
    (n : Bool) (state : PrintState) (stamp user : String) (sel : Voucher → Bool) (db : Db)
    (r : AlignmentResult)
    → ((v : Voucher) → sel (aligned_row n state stamp v) ≡ sel v)
    → refusal n state db (filter_by sel db.vouchers) ≡ none
    → (align_rows n state stamp user (filter_by sel db.vouchers) db).0 ≡ ok r
    → IsAlignment n state sel
        (length (filter_by sel db.vouchers))
        db
        (align_rows n state stamp user (filter_by sel db.vouchers) db).1
        r
unfolding Aligns
rows-IsAlignment n state stamp user sel db r keeps f h =
    let (r', q, t, l, m) = align_rows-total n state stamp user (filter_by sel db.vouchers) db in
    record {
      is_aligned = rw t (
          all_aligned n state stamp sel keeps (filter_by sel db.vouchers) db.vouchers
            (all-IsCovered n state stamp sel db.vouchers));
      has_evidence = agrees n state db (filter_by sel db.vouchers) f;
      is_complete = ground (arith, l, q, h);
      is_logged = ground (arith, m, q, h);
    }

not_archived :
    (v : Voucher) (n : Bool) (state : PrintState) (stamp : String) (c : ℕ) (ids : List ℕ)
    → in_selection c ids (aligned_row n state stamp v) ≡ in_selection c ids v
unfolding aligned_row
not_archived v n state stamp c ids = refl

selection-IsAlignment :
    (n : Bool) (state : PrintState) (stamp user : String) (c : ℕ) (ids : List ℕ) (db : Db)
    (r : AlignmentResult)
    → (align_selection n state stamp user c ids db).0 ≡ ok r
    → IsAlignment n state
        (in_selection c ids)
        (length ids)
        db
        (align_selection n state stamp user c ids db).1
        r
unfolding align_selection refuse
selection-IsAlignment n state stamp user c ids db r h =
    elim (Bool-cases (eqb (length (filter_by (in_selection c ids) db.vouchers)) (length ids))) [
      | inl e ↦
          elim (Option-cases (refusal n state db (filter_by (in_selection c ids) db.vouchers))) [
            | inl f ↦
                rw (e, f)
                  (rw ((eqb_iff _ _).0 e) at (
                    rows-IsAlignment n state stamp user (in_selection c ids) db r
                      (λ v. not_archived v n state stamp c ids) f (rw (e, f) at h)))
            | inr (x, f) ↦ absurd (ground (arith, rw (e, f) at h))
          ]
      | inr e ↦ absurd (ground (arith, rw e at h))
    ]

three_guards-ok :
    {A : Type 0} (a b c : Bool) (x y z : Error) (m : Action A) (db : Db) {r : A}
    → ((do raise_if a x; raise_if b y; raise_if c z; m) db).0 ≡ ok r
    → ((do raise_if a x; raise_if b y; raise_if c z; m) db) ≡ m db
three_guards-ok false false false x y z m db h = refl
three_guards-ok true b c x y z m db h = cc
three_guards-ok false true c x y z m db h = cc
three_guards-ok false false true x y z m db h = cc

in_transaction-IsAlignment :
    (n : Bool) (state : PrintState) (stamp user : String) (c : ℕ) (ids : List ℕ) (db : Db)
    {r : AlignmentResult}
    → (transaction (align_selection n state stamp user c ids) db).0 ≡ ok r
    → IsAlignment n state
        (in_selection c ids)
        (length ids)
        db
        (transaction (align_selection n state stamp user c ids) db).1
        r
in_transaction-IsAlignment n state stamp user c ids db {r} h =
    let (p, q) = transaction-ok (align_selection n state stamp user c ids) db h in
    rw q (selection-IsAlignment n state stamp user c ids db r p)

-- An alignment that returns has left every selected row aligned as the operator said, with a time;
-- the print state agreed with the print evidence of every selected row; as many ids are reported, as
-- changed or as unchanged, as different ids were given; and the log has one event more for each change.
pub IsAlignment-completes :
    (c : ℕ) (ids : List ℕ) (n : Bool) (word stamp user : String) (db : Db) {r : AlignmentResult}
    → (align_vouchers c ids n word stamp user db).0 ≡ ok r
    → (state : PrintState) × (parse_print_state word ≡ some state)
      × IsAlignment n state
          (in_selection c (from_keys eqb ids))
          (length (from_keys eqb ids))
          db
          (align_vouchers c ids n word stamp user db).1
          r
unfolding align_vouchers with_state
IsAlignment-completes c ids n word stamp user db {r} h =
    elim (Option-cases (parse_print_state word)) [
      | inl e ↦ absurd (ground (arith, rw e at h))
      | inr (state, e) ↦
          let q =
            three_guards-ok (is_nil (from_keys eqb ids)) (is_empty (strip stamp))
              (is_empty (strip user)) (value_error empty_selection) (value_error missing_timestamp)
              (value_error missing_operator)
              (transaction
                (align_selection n state (strip stamp) (strip user) c (from_keys eqb ids)))
              db (rw e at h) in
          (
            state,
            e,
            rw (e, q)
                (in_transaction-IsAlignment n state (strip stamp) (strip user) c (from_keys eqb ids)
                  db (rw (e, q) at h)),
          )
    ]
