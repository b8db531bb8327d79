-- ===== src/Database/PrintAudit/Printed.antt =====
-- After an audit of a physical print (database.py) its vouchers are printed.
-- every row with the id says PRINTED
use voucher_management_deskt.Database.PrintLabels.{
  PrintAudit, expected_prints, labels_of, names_row, only_row,
}
use voucher_management_deskt.Database.PrintLabels.Named.{
  keys_of_labels, is_label, is_row_of, label_counts-ok, labels_of-ok,
}
use voucher_management_deskt.Database.Queries.{insert_event}
use voucher_management_deskt.Database.Action.{
  Action, for_each, ok, Result-cases, Result, transaction, transaction-ok, Error, err, ok_injective,
}
use voucher_management_deskt.Database.Rows.{Db, Voucher, has_id, is_printed, PrintJob}
use voucher_management_deskt.Prelude.{
  ℕ, Bool, List, ◌≡◌, all_by, true, not, Bool-cases, eqb, update_by, suc, ◌||◌, refl, ◌∷◌, ◌&&◌,
  arith, [], inl, inr, and_intro, Option, some, none, String, subst, sym, elem, filter_by, ◌==◌,
  ◌∙◌, ◌*◌, eq_iff, find_by, strip,
}
use voucher_management_deskt.Database.PrintAudit.{
  set_printed, insert_print, printed_row, last_sequence, was_unknown, write_audit, insert_audit,
  repeat_audit, same_job, same_entries, prints_of_job, record_print_audit, audit_in_transaction,
}

abbrev pub is_printed_id : Db → ℕ → Bool
is_printed_id db k = all_by (λ v. not (has_id k v) || is_printed v.print_state) db.vouchers

abbrev pub all_printed : Db → List (ℕ × ℕ) → Bool
all_printed db es = all_by (λ (e : ℕ × ℕ). is_printed_id db e.0) es

printed_stays :
    (j k : ℕ) (vs : List Voucher)
    → all_by (λ v. not (has_id k v) || is_printed v.print_state) vs ≡ true
    → all_by
        (λ v. not (has_id k v) || is_printed v.print_state)
        (update_by (has_id j) printed_row vs)
      ≡ true
unfolding printed_row
printed_stays j k [] h = refl
printed_stays j k (v ∷ vs) h = ground (arith, printed_stays j k vs)

now_printed :
    (k : ℕ) (vs : List Voucher)
    → all_by
        (λ v. not (has_id k v) || is_printed v.print_state)
        (update_by (has_id k) printed_row vs)
      ≡ true
unfolding printed_row
now_printed k [] = refl
now_printed k (v ∷ vs) = ground (arith, now_printed k vs)

-- what one turn of either loop does to the vouchers
Prints : (ℕ → ℕ → Action (Unit {0})) → Type 0
Prints f =
    (k n : ℕ) (db : Db)
    → ((f k n db).0 ≡ ok tt)
      × ((f k n db).1.vouchers ≡ update_by (has_id k) printed_row db.vouchers)

insert_print-Prints : (a : PrintAudit) (job : ℕ) → Prints (insert_print a job)
unfolding Prints insert_print set_printed insert_event
insert_print-Prints a job k n db =
    elim (Bool-cases (eqb (suc (last_sequence k db.prints)) 1 && was_unknown k db)) [
      | inl e ↦ rw e (refl, refl)
      | inr e ↦ rw e (refl, refl)
    ]

set_printed-Prints : Prints (λ k n. set_printed k)
unfolding Prints set_printed
set_printed-Prints k n db = (refl, refl)

module _ (f : ℕ → ℕ → Action (Unit {0})) (p : Prints f) where
  loop_keeps :
      (k : ℕ) (es : List (ℕ × ℕ)) (db : Db)
      → is_printed_id db k ≡ true
      → is_printed_id (for_each es (λ e. f e.0 e.1) db).1 k ≡ true
  unfolding for_each Prints
  loop_keeps k [] db h = h
  loop_keeps k ((j, n) ∷ es) db h =
      let (q, t) = p j n db in
      rw q (loop_keeps k es (f j n db).1 (rw t (printed_stays j k db.vouchers h)))

  step :
      (j n : ℕ) (es : List (ℕ × ℕ)) (db : Db)
      → for_each ((j, n) ∷ es) (λ e. f e.0 e.1) db ≡ for_each es (λ e. f e.0 e.1) (f j n db).1
  unfolding for_each Prints
  step j n es db = rw (p j n db).0 refl

  loop_prints :
      (es : List (ℕ × ℕ)) (db : Db)
      → ((for_each es (λ e. f e.0 e.1) db).0 ≡ ok tt)
        × (all_printed (for_each es (λ e. f e.0 e.1) db).1 es ≡ true)
  unfolding Prints
  loop_prints [] db = (unfold for_each in refl, refl)
  loop_prints ((j, n) ∷ es) db =
      let (r, s) = loop_prints es (f j n db).1 in
      subst
        (λ (out : Result (Unit {0}) × Db).
          (out.0 ≡ ok tt) × (all_printed out.1 ((j, n) ∷ es) ≡ true))
        (sym (step j n es db))
        (
          r,
          and_intro (loop_keeps j es (f j n db).1 (rw (p j n db).1 (now_printed j db.vouchers))) s,
        )

write-prints :
    (a : PrintAudit) (es : List (ℕ × ℕ)) (o : Option PrintJob) (db : Db)
    → (write_audit a es o db).0 ≡ ok tt
    → all_printed (write_audit a es o db).1 es ≡ true
unfolding write_audit insert_audit repeat_audit
write-prints a es none db h = (loop_prints (insert_print a _) (insert_print-Prints a _) es _).1
write-prints a es (some j) db h = elim (Bool-cases (same_job a j)) [
  | inl e ↦ elim (Bool-cases (same_entries (prints_of_job j.id db.prints) es)) [
    | inl q ↦ rw (e, q) (loop_prints (λ k n. set_printed k) set_printed-Prints es db).1
    | inr q ↦ absurd (ground (arith, rw (e, q) at h))
  ]
  | inr e ↦ absurd (ground (arith, rw e at h))
]

-- the only row that a label names
abbrev pub IsNamed : Bool → ℕ → String → Db → Voucher → Type 0
IsNamed by_id c key db v = filter_by (names_row by_id c key) db.vouchers ≡ v ∷ []

only_row-ok :
    (vs : List Voucher) {k : ℕ} → only_row vs ≡ ok k → (v : Voucher) × (vs ≡ v ∷ []) × (v.id ≡ k)
unfolding only_row
only_row-ok [] h = absurd (ground arith)
only_row-ok (v ∷ []) h = (v, refl, ok_injective h)
only_row-ok (v ∷ w ∷ vs) h = absurd (ground arith)

-- Where the vouchers of the labels are found, each label has its one row, and this row is marked.
expected_prints-IsNamed :
    (by_id : Bool) (c copies : ℕ) (labels : List (String × ℕ)) (db after : Db) (key : String)
    {es : List (ℕ × ℕ)}
    → (expected_prints by_id c copies labels db).0 ≡ ok es
    → all_printed after es ≡ true
    → elem ◌==◌ key (keys_of_labels labels) ≡ true
    → (v : Voucher) × IsNamed by_id c key db v × (is_printed_id after v.id ≡ true)
unfolding expected_prints
expected_prints-IsNamed by_id c copies [] db after key h p m = absurd (ground arith)
expected_prints-IsNamed by_id c copies ((k, n) ∷ rest) db after key {es} h p m =
    elim (Result-cases (only_row (filter_by (names_row by_id c k) db.vouchers))) [
      | inr (x, e) ↦ absurd (ground (arith, rw e at h))
      | inl (id, e) ↦ elim (Result-cases (expected_prints by_id c copies rest db).0) [
        | inr (x, f) ↦ absurd (ground (arith, rw (e, f) at h))
        | inl (more, f) ↦
            (let joined : (id, n * copies) ∷ more ≡ es = ok_injective (rw (e, f) at h) in
              let marks : all_printed after ((id, n * copies) ∷ more) ≡ true =
                subst (λ l. all_printed after l ≡ true) (sym joined) p in
              elim (Bool-cases (key == k)) [
                | inl q ↦
                    (let (v, one, same) =
                        only_row-ok (filter_by (names_row by_id c k) db.vouchers) e in
                      let first : is_printed_id after id ≡ true = ground arith in
                      (
                        v,
                        subst (λ x. IsNamed by_id c x db v) (sym ((eq_iff key k).0 q)) one,
                        subst (λ x. is_printed_id after x ≡ true) (sym same) first,
                      ))
                | inr q ↦
                    expected_prints-IsNamed by_id c copies rest db after key f (ground arith)
                      (ground arith)
              ])
      ]
    ]

in_transaction-prints :
    (c : ℕ) (a : PrintAudit) (by_id : Bool) (labels : List (String × ℕ)) (db : Db) (key : String)
    → (audit_in_transaction c a by_id labels db).0 ≡ ok tt
    → elem ◌==◌ key (keys_of_labels labels) ≡ true
    → (v : Voucher) × IsNamed by_id c key db v
      × (is_printed_id (audit_in_transaction c a by_id labels db).1 v.id ≡ true)
unfolding audit_in_transaction
in_transaction-prints c a by_id labels db key h m =
    elim (Result-cases (expected_prints by_id c a.document_copies labels db).0) [
      | inl (es, e) ↦
          (let db1 = (expected_prints by_id c a.document_copies labels db).1 in
            let job =
              find_by (λ (j : PrintJob). j.print_job_uuid == strip a.audit_id) db1.print_jobs in
            rw e (
              expected_prints-IsNamed by_id c a.document_copies labels db
                (write_audit a es job db1).1 key e (write-prints a es job db1 (rw e at h)) m))
      | inr (x, e) ↦ absurd (ground (arith, rw e at h))
    ]

filter-same :
    (p q : Voucher → Bool)
    → ((v : Voucher) → p v ≡ q v)
    → (vs : List Voucher) → filter_by p vs ≡ filter_by q vs
filter-same p q h [] = refl
filter-same p q h (v ∷ vs) = ground (arith, h v, filter-same p q h vs)

-- A call that records a print, new or repeated, found for each label of the audit, a remote id or else a
-- code, exactly one row of the controller that has it, and this row says PRINTED afterwards.
pub audited_are_printed :
    (c : ℕ) (a : PrintAudit) (db : Db) (key : String)
    → (record_print_audit c a db).0 ≡ ok tt
    → is_label a key ≡ true
    → (v : Voucher) × (filter_by (is_row_of a c key) db.vouchers ≡ v ∷ [])
      × (is_printed_id (record_print_audit c a db).1 v.id ≡ true)
unfolding record_print_audit
audited_are_printed c a db key h m = elim (Result-cases (labels_of a)) [
  | inl (labels, e) ↦
      let (p, q) = transaction-ok (audit_in_transaction c a labels.0 labels.1) db (rw e at h) in
      let (same, rows) = label_counts-ok key c a.codes a.unifi_ids (labels_of-ok a e) in
      let (v, one, done) = in_transaction-prints c a labels.0 labels.1 db key p (same ∙ m) in
      (
        v,
        filter-same (is_row_of a c key) (names_row labels.0 c key) (λ w. sym (rows w)) db.vouchers
            ∙ one,
        rw (e, q) done,
      )
  | inr (x, e) ↦ absurd (ground (arith, rw e at h))
]

-- A call for a print audit that raises has changed nothing.
pub audit_atomic :
    (c : ℕ) (a : PrintAudit) (db : Db) {e : Error}
    → (record_print_audit c a db).0 ≡ err e
    → (record_print_audit c a db).1 ≡ db
unfolding record_print_audit transaction
audit_atomic c a db h = elim (Result-cases (labels_of a)) [
  | inl (labels, e) ↦ ground (arith, e)
  | inr (x, e) ↦ ground (arith, e)
]
