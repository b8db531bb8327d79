-- ===== src/Database/Created/Facts.antt =====
-- What `mark_application_created_vouchers` of database.py has done when it returns.
use voucher_management_deskt.Database.Selection.{selected, every_id_selected}
use voucher_management_deskt.Database.Action.{is_ok}
use voucher_management_deskt.Database.WellFormed.{
  KeepsIdentity, IsWellFormed, row_at, row_at-update_by, has_key-row_at,
}
use voucher_management_deskt.Database.Rows.{Voucher, has_key, Db, application, not_printed}
use voucher_management_deskt.Database.Created.{
  marked_row, mark_rows, mark_application_created_vouchers,
}
use voucher_management_deskt.Prelude.{
  List, [], ◌∷◌, String, ℕ, Bool, all_by, any_by, ◌≡◌, refl, true, update_by, elem, count_by, ◌==◌,
  length, some, arith, Bool-cases, inl, eq_iff, inr, is_nil, ap, clean_ids, strip, false, is_empty,
}

marked_row-KeepsIdentity : (n : Bool) (stamp : String) → KeepsIdentity (marked_row n stamp)
unfolding marked_row
marked_row-KeepsIdentity n stamp = record {
  same_id = λ v. refl;
  same_controller = λ v. refl;
  same_unifi_id = λ v. refl;
}

elem-all_by :
    (p : String → Bool) (u : String) (ids : List String)
    → all_by p ids ≡ true
    → elem ◌==◌ u ids ≡ true
    → p u ≡ true
elem-all_by p u [] h e = cc
elem-all_by p u (w ∷ ids) h e = elim (Bool-cases (u == w)) [
  | inl q ↦ rw ((eq_iff u w).0 q) (ground arith)
  | inr q ↦ elem-all_by p u ids (ground arith) (ground arith)
]

row_of_any :
    (c : ℕ) (u : String) (vs : List Voucher)
    → any_by (has_key c u) vs ≡ true
    → (v : Voucher) × (row_at c u vs ≡ some v)
row_of_any c u [] h = cc
row_of_any c u (v ∷ vs) h = elim (Bool-cases (has_key c u v)) [
  | inl e ↦ (v, rw e)
  | inr e ↦ let (w, q) = row_of_any c u vs (ground arith) in (w, rw e q)
]

selected_row :
    (c : ℕ) (u : String) (ids : List String) (v : Voucher)
    → has_key c u v ≡ true
    → selected c ids v ≡ elem ◌==◌ u ids
selected_row c u ids v h =
    ground (arith, ap (λ x. elem ◌==◌ x ids) ((eq_iff v.unifi_id u).0 (ground arith)))

module _ (c : ℕ) (ids : List String) (is_nominal : Bool) (stamp : String) (db : Db) where
  marked_table :
      (mark_rows c ids is_nominal stamp db).1.vouchers
      ≡ update_by (selected c ids) (marked_row is_nominal stamp) db.vouchers
  unfolding mark_rows
  marked_table = ground arith

  counted :
      is_ok (mark_rows c ids is_nominal stamp db).0 ≡ true
      → count_by (selected c ids) db.vouchers ≡ length ids
  unfolding mark_rows
  counted h = ground arith

  marks_every_row :
      IsWellFormed db.vouchers
      → is_ok (mark_rows c ids is_nominal stamp db).0 ≡ true
      → (u : String) → elem ◌==◌ u ids ≡ true
      → (v : Voucher) × (row_at c u db.vouchers ≡ some v)
        × (row_at c u (mark_rows c ids is_nominal stamp db).1.vouchers
            ≡ some (marked_row is_nominal stamp v))
  marks_every_row w h u e =
      let (v, q) = row_of_any c u db.vouchers (
        elem-all_by (λ x. any_by (has_key c x) db.vouchers) u ids
          (every_id_selected c ids db.vouchers w (counted h)) e) in
      (
        v,
        q,
        rw (
          marked_table,
          row_at-update_by (selected c ids) (marked_row is_nominal stamp)
              (marked_row-KeepsIdentity is_nominal stamp) c u db.vouchers,
          q,
          selected_row c u ids v (has_key-row_at c u v db.vouchers q),
          e,
        ),
      )

nil_has_none : (u : String) (ids : List String) → is_nil ids ≡ true → elem ◌==◌ u ids ≡ true → ⊥
nil_has_none u [] n e = cc
nil_has_none u (w ∷ ids) n e = cc

-- When the call returns, every listed remote id has a row, and its new row says: created by the
-- application, not printed, aligned now, with the nominality given. All else in the row is kept.
pub marks_created :
    (c : ℕ) (unifi_ids : List String) (is_nominal : Bool) (aligned_at : String) (db : Db)
    → IsWellFormed db.vouchers
    → is_ok (mark_application_created_vouchers c unifi_ids is_nominal aligned_at db).0 ≡ true
    → (u : String) → elem ◌==◌ u (clean_ids unifi_ids) ≡ true
    → (v : Voucher) × (row_at c u db.vouchers ≡ some v)
      × (row_at c u
            (mark_application_created_vouchers c unifi_ids is_nominal aligned_at db).1.vouchers
          ≡ some (record v {
            origin = application;
            is_nominal = some is_nominal;
            print_state = not_printed;
            alignment_completed_at = some (strip aligned_at);
            nominality_redacted = false;
          }))
unfolding mark_application_created_vouchers
marks_created c unifi_ids is_nominal aligned_at db w h u e =
    elim (Bool-cases (is_nil (clean_ids unifi_ids))) [
      | inl n ↦ absurd (nil_has_none u (clean_ids unifi_ids) n e)
      | inr n ↦ elim (Bool-cases (is_empty (strip aligned_at))) [
        | inl b ↦ absurd (ground arith)
        | inr b ↦
            rw (n, b)
              (unfold marked_row in
                marks_every_row c (clean_ids unifi_ids) is_nominal (strip aligned_at) db w
                  (ground arith) u e)
      ]
    ]
