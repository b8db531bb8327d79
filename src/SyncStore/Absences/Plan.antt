-- ===== src/SyncStore/Absences/Plan.antt =====
-- What the plan of `inspect_snapshot_absences` (sync_store.py) holds.
use voucher_management_deskt.Database.Queries.{is_archived}
use voucher_management_deskt.Database.Rows.{Voucher, Db}
use voucher_management_deskt.Prelude.{
  List, ℕ, String, Bool, ◌≡◌, clean_ids, is_empty, elem, ◌∷◌, arith, Bool-cases, not, ◌==◌, strip,
  filter_by, ◌||◌, [], inl, refl, inr, leb, ◌&&◌, eqb, any_by,
}
use voucher_management_deskt.SyncStore.Absences.{
  SnapshotAbsencePlan, inspect_snapshot_absences, plan_rows, is_present_row,
}

-- Is this a row of the controller, with this remote id, that was there before, and that the list leaves
-- out?
abbrev pub is_left_out : ℕ → List String → String → Voucher → Bool
is_left_out c present u v =
    (u == strip v.unifi_id)
    && eqb v.controller_id c
    && not (is_archived v)
    && v.present_on_controller
    && not (is_empty (strip v.unifi_id))
    && not (elem ◌==◌ (strip v.unifi_id) present)

abbrev pub is_left_out_again : ℕ → List String → String → Voucher → Bool
is_left_out_again c present u v = is_left_out c present u v && leb 1 v.missing_observation_count

abbrev pub IsAbsencePlan : ℕ → List String → List Voucher → SnapshotAbsencePlan → Type 0
IsAbsencePlan c present vs plan =
    (u : String)
    → (elem ◌==◌ u plan.suspected_ids ≡ any_by (is_left_out c present u) vs)
      × (elem ◌==◌ u plan.confirmation_ids ≡ any_by (is_left_out_again c present u) vs)

plan_rows-IsAbsencePlan :
    (c : ℕ) (present : List String) (vs : List Voucher)
    → IsAbsencePlan c present vs (plan_rows present (filter_by (is_present_row c) vs))
unfolding plan_rows
plan_rows-IsAbsencePlan c present [] u = (refl, refl)
plan_rows-IsAbsencePlan c present (v ∷ vs) u =
    let ih = plan_rows-IsAbsencePlan c present vs u in
    elim (Bool-cases (is_present_row c v)) [
      | inl p ↦
          elim (Bool-cases (is_empty (strip v.unifi_id) || elem ◌==◌ (strip v.unifi_id) present)) [
            | inl e ↦ rw (p, e) (ground (arith, ih.0, p, e), ground (arith, ih.1, p, e))
            | inr e ↦ elim (Bool-cases (leb 1 v.missing_observation_count)) [
              | inl m ↦ rw (p, e, m) (ground (arith, ih.0, p, e), ground (arith, ih.1, p, e, m))
              | inr m ↦ rw (p, e, m) (ground (arith, ih.0, p, e), ground (arith, ih.1, p, e, m))
            ]
          ]
      | inr p ↦ rw p (ground (arith, ih.0, p), ground (arith, ih.1, p))
    ]

-- A list's plan suspects exactly the remote ids, not blank, of the controller's rows that are not
-- archived, were there before, and are not in the list; a direct read is asked exactly of those that at
-- least one earlier list had left out.
pub inspect_snapshot_absences-IsAbsencePlan :
    (c : ℕ) (present_ids : List String) (db : Db)
    → IsAbsencePlan c
        (clean_ids present_ids)
        db.vouchers
        (inspect_snapshot_absences c present_ids db)
unfolding inspect_snapshot_absences
inspect_snapshot_absences-IsAbsencePlan c present_ids db =
    plan_rows-IsAbsencePlan c (clean_ids present_ids) db.vouchers
