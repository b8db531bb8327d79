-- ===== src/Alignment/Evidence.antt =====
-- What an alignment (alignment.py) may change, and on what print evidence.
use mathlib.Core.Path.{fun_ext}
use voucher_management_deskt.Database.Queries.{insert_event}
use voucher_management_deskt.Database.Action.{transaction, Error, err, Result, ok}
use voucher_management_deskt.Database.Rows.{
  PrintState, Db, Voucher, is_printed, has_id, printed, unknown, not_printed,
}
use voucher_management_deskt.Alignment.{
  refusal, align_vouchers, aligned_row, has_print_evidence, is_unchanged, align_rows,
  AlignmentResult, align_row, same_state,
}
use voucher_management_deskt.Prelude.{
  List, [], ◌∷◌, Bool, String, bool_eqb, ℕ, any_by, ◌≡◌, none, refl, not, update_by, false, all_by,
  ◌||◌, arith, ◌&&◌, true, eqb, ap, length, Bool-cases, inl, ◌+◌, inr, ◌∙◌, sym, length-append, All,
  strip, some, filter_by, eqb_refl, or_true_right, Option, is_some, is_empty, if◌then◌else◌,
  All-map, or_empty,
}

-- An alignment that raises has changed nothing.
pub align_atomic :
    (c : ℕ) (ids : List ℕ) (n : Bool) (state stamp user : String) (db : Db) {e : Error}
    → (align_vouchers c ids n state stamp user db).0 ≡ err e
    → (align_vouchers c ids n state stamp user db).1 ≡ db
unfolding align_vouchers transaction
align_atomic c ids n state stamp user db h = ground arith

abbrev pub evidence_agrees : PrintState → Db → Voucher → Bool
evidence_agrees state db v = bool_eqb (is_printed state) (has_print_evidence db v)

agrees_if_printed :
    (db : Db) (vs : List Voucher)
    → any_by (λ v. not (has_print_evidence db v)) vs ≡ false
    → all_by (has_print_evidence db) vs ≡ true
agrees_if_printed db [] h = refl
agrees_if_printed db (v ∷ vs) h = ground (arith, agrees_if_printed db vs)

agrees_if_not :
    (db : Db) (vs : List Voucher)
    → any_by (has_print_evidence db) vs ≡ false
    → all_by (λ v. not (has_print_evidence db v)) vs ≡ true
agrees_if_not db [] h = refl
agrees_if_not db (v ∷ vs) h = ground (arith, agrees_if_not db vs)

pub agrees :
    (n : Bool) (state : PrintState) (db : Db) (vs : List Voucher)
    → refusal n state db vs ≡ none
    → all_by (evidence_agrees state db) vs ≡ true
unfolding refusal
agrees n printed db vs h = agrees_if_printed db vs (ground arith)
agrees n unknown db vs h = agrees_if_not db vs (ground arith)
agrees n not_printed db vs h = agrees_if_not db vs (ground arith)

module _ (n : Bool) (state : PrintState) (stamp user : String) where
  -- the rows that the loop changes
  abbrev needs : List Voucher → Voucher → Bool
  needs rows v = any_by (λ r. not (is_unchanged n state r) && eqb v.id r.id) rows

  aligned_row_idem :
      (v : Voucher)
      → aligned_row n state stamp (aligned_row n state stamp v) ≡ aligned_row n state stamp v
  unfolding aligned_row
  aligned_row_idem v = refl

  update_twice :
      (k : ℕ) (q : Voucher → Bool) (vs : List Voucher)
      → ((v : Voucher) → q (aligned_row n state stamp v) ≡ q v)
      → update_by q
          (aligned_row n state stamp)
          (update_by (has_id k) (aligned_row n state stamp) vs)
        ≡ update_by (λ v. has_id k v || q v) (aligned_row n state stamp) vs
  update_twice k q [] h = refl
  update_twice k q (v ∷ vs) h = ground (arith, update_twice k q vs h, h v, aligned_row_idem v)

  unfoldable pub Aligns : List Voucher → Db → Result AlignmentResult × Db → Type 0
  Aligns rows db out =
      (r : AlignmentResult) × (out.0 ≡ ok r)
      × (out.1.vouchers ≡ update_by (needs rows) (aligned_row n state stamp) db.vouchers)
      × (length r.updated_ids + length r.unchanged_ids ≡ length rows)
      × (length out.1.events ≡ length db.events + length r.updated_ids)

  update_by_none : (vs : List Voucher) → vs ≡ update_by (needs []) (aligned_row n state stamp) vs
  update_by_none [] = refl
  update_by_none (v ∷ vs) = ap (λ t. v ∷ t) (update_by_none vs)

  needs-skip :
      (v : Voucher) (vs : List Voucher) → is_unchanged n state v ≡ true → needs (v ∷ vs) ≡ needs vs
  needs-skip v vs e = fun_ext (λ w. rw e)

  needs-take :
      (v : Voucher) (vs : List Voucher)
      → is_unchanged n state v ≡ false
      → needs (v ∷ vs) ≡ (λ w. has_id v.id w || needs vs w)
  needs-take v vs e = fun_ext (λ w. rw e)

  needs-aligned :
      (vs : List Voucher) (w : Voucher) → needs vs (aligned_row n state stamp w) ≡ needs vs w
  unfolding aligned_row
  needs-aligned vs w = refl

  pub align_rows-total :
      (rows : List Voucher) (db : Db) → Aligns rows db (align_rows n state stamp user rows db)
  unfolding Aligns align_rows align_row insert_event
  align_rows-total [] db = (_, refl, update_by_none db.vouchers, omega arith, omega arith)
  align_rows-total (v ∷ vs) db = elim (Bool-cases (is_unchanged n state v)) [
    | inl e ↦
        let (r, q, t, l, m) = align_rows-total vs db in
        (
          record r { unchanged_ids = v.id ∷ r.unchanged_ids },
          rw (e, q),
          rw (e, q)
              (t
                ∙ ap (λ p. update_by p (aligned_row n state stamp) db.vouchers)
                    (sym (needs-skip v vs e))),
          omega arith,
          rw (e, q) m,
        )
    | inr e ↦
        let (r, q, t, l, m) = align_rows-total vs (align_row n state stamp user v db).1 in
        (
          record r { updated_ids = v.id ∷ r.updated_ids },
          rw (e, q),
          rw (e, q)
              (t
                ∙ update_twice v.id (needs vs) db.vouchers (λ w. needs-aligned vs w)
                ∙ ap (λ p. update_by p (aligned_row n state stamp) db.vouchers)
                    (sym (needs-take v vs e))),
          omega arith,
          rw (e, q) (omega (arith, m, length-append {0})),
        )
  ]

abbrev pub IsAlignedAs : Bool → PrintState → Voucher → Type 0
IsAlignedAs n state v =
    (v.is_nominal ≡ some n) × (v.print_state ≡ state) × (is_some v.alignment_completed_at ≡ true)

state_of_same : (s t : PrintState) → same_state s t ≡ true → s ≡ t
state_of_same unknown unknown h = refl
state_of_same not_printed not_printed h = refl
state_of_same printed printed h = refl
state_of_same _ _ h = ground arith

is_some_of_aligned : (o : Option String) → is_empty (strip (or_empty o)) ≡ false → is_some o ≡ true
unfolding strip
is_some_of_aligned none h = cc
is_some_of_aligned (some s) h = refl

unchanged-IsAlignedAs :
    (n : Bool) (state : PrintState) (v : Voucher)
    → is_unchanged n state v ≡ true
    → IsAlignedAs n state v
unfolding is_unchanged
unchanged-IsAlignedAs n state v h = (
  ground arith,
  state_of_same v.print_state state (ground arith),
  is_some_of_aligned v.alignment_completed_at (ground arith),
)

module _ (n : Bool) (state : PrintState) (stamp : String) (sel : Voucher → Bool) where
  abbrev IsCovered : List Voucher → Voucher → Type 0
  IsCovered rows v =
      sel v ≡ true → is_unchanged n state v ≡ false → needs n state stamp "" rows v ≡ true

  needs_more :
      (v : Voucher) (vs : List Voucher) (w : Voucher)
      → IsCovered (filter_by sel vs) w
      → IsCovered (filter_by sel (v ∷ vs)) w
  needs_more v vs w h s c = elim (Bool-cases (sel v)) [
    | inl e ↦ rw e (or_true_right _ _ (h s c))
    | inr e ↦ rw e (h s c)
  ]

  pub all-IsCovered : (vs : List Voucher) → All (IsCovered (filter_by sel vs)) vs
  all-IsCovered [] = tt
  all-IsCovered (v ∷ vs) = (
    λ s c. rw (s, c) (ground (arith, eqb_refl v.id)),
    All-map vs (needs_more v vs) (all-IsCovered vs),
  )

  not_changed-IsAlignedAs :
      (rows : List Voucher) (v : Voucher)
      → IsCovered rows v
      → needs n state stamp "" rows v ≡ false
      → sel v ≡ true
      → IsAlignedAs n state v
  not_changed-IsAlignedAs rows v h e s = elim (Bool-cases (is_unchanged n state v)) [
    | inl u ↦ unchanged-IsAlignedAs n state v u
    | inr u ↦ absurd (ground (arith, h s u, e))
  ]

  now-IsAlignedAs :
      (rows : List Voucher) (v : Voucher)
      → IsCovered rows v
      → sel (aligned_row n state stamp v) ≡ sel v
      → (λ (w : Voucher). sel w ≡ true → IsAlignedAs n state w)
          (if needs n state stamp "" rows v then aligned_row n state stamp v else v)
  unfolding aligned_row
  now-IsAlignedAs rows v h k = elim (Bool-cases (needs n state stamp "" rows v)) [
    | inl e ↦ rw e (λ s. (refl, refl, refl))
    | inr e ↦ rw e (not_changed-IsAlignedAs rows v h e)
  ]

  pub all_aligned :
      ((v : Voucher) → sel (aligned_row n state stamp v) ≡ sel v)
      → (rows vs : List Voucher) → All (IsCovered rows) vs
      → All
          (λ v. sel v ≡ true → IsAlignedAs n state v)
          (update_by (needs n state stamp "" rows) (aligned_row n state stamp) vs)
  all_aligned keeps rows [] h = tt
  all_aligned keeps rows (v ∷ vs) h =
      (now-IsAlignedAs rows v h.0 (keeps v), all_aligned keeps rows vs h.1)
