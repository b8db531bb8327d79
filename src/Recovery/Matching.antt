-- ===== src/Recovery/Matching.antt =====
-- `match_pending_create_intent` of uncertain_create_recovery.py. The digest of a recipient is a parameter.
mod Tests
use voucher_management_deskt.Prelude.{
  String, Bool, List, ℕ, ◌==◌, if◌then◌else◌, not, eqb, length, from_keys, strip, elem, map, ltb,
  ◌&&◌, is_empty, ◌≡◌, filter_by, opt_eqb, any_by, ◌∷◌, is_unique, Bool-cases, true, ◌↔◌, inl,
  arith, ◌<◌, inr, elem-from_keys, eq_iff, [], refl, ◌∙◌, from_keys-is_unique, eqb_iff,
}
use voucher_management_deskt.Models.{ApiVoucher}
use voucher_management_deskt.Recovery.Intent.{PendingCreateIntent}

pub data MatchStatus : Type 0 where
  exact ambiguous incomplete : MatchStatus

pub record CreateRecoveryMatch : Type 0 where
  pub status : MatchStatus
  pub compatible_ids : List String
  pub new_ids : List String

abbrev stripped_id : ApiVoucher → String
stripped_id v = strip v.id

-- a voucher of the list that the baseline does not have
abbrev pub is_new : PendingCreateIntent → ApiVoucher → Bool
is_new pending v = not (is_empty (strip v.id)) && not (elem ◌==◌ (strip v.id) pending.baseline_ids)

-- the tests that end in `continue`
abbrev pub is_compatible : (String → String) → PendingCreateIntent → ApiVoucher → Bool
is_compatible recipient_digest pending v =
    eqb v.duration_minutes pending.duration_minutes
    && eqb v.quota pending.quota
    && opt_eqb v.data_mb pending.data_mb
    && opt_eqb v.down_kbps pending.down_kbps
    && opt_eqb v.up_kbps pending.up_kbps
    && (recipient_digest v.recipient == pending.recipient_digest)

abbrev status_for : ℕ → ℕ → MatchStatus
status_for found quantity =
    if eqb found quantity then exact else if ltb quantity found then ambiguous else incomplete

module _ (recipient_digest : String → String) where
  abbrev pub compatible_ids_of : PendingCreateIntent → List ApiVoucher → List String
  compatible_ids_of pending vouchers = from_keys ◌==◌ (
      map stripped_id
        (filter_by (is_compatible recipient_digest pending) (filter_by (is_new pending) vouchers)))

  pub match_pending_create_intent : PendingCreateIntent → List ApiVoucher → CreateRecoveryMatch
  match_pending_create_intent pending vouchers = record {
    status = status_for (length (compatible_ids_of pending vouchers)) pending.quantity;
    compatible_ids = compatible_ids_of pending vouchers;
    new_ids = from_keys ◌==◌ (map stripped_id (filter_by (is_new pending) vouchers));
  }

-- Is this the id of the voucher, one that the baseline does not have, and are its validity, its limits
-- and its recipient those of the intent?
abbrev pub is_candidate : (String → String) → PendingCreateIntent → String → ApiVoucher → Bool
is_candidate recipient_digest pending u v =
    (u == strip v.id)
    && not (is_empty (strip v.id))
    && not (elem ◌==◌ (strip v.id) pending.baseline_ids)
    && eqb v.duration_minutes pending.duration_minutes
    && eqb v.quota pending.quota
    && opt_eqb v.data_mb pending.data_mb
    && opt_eqb v.down_kbps pending.down_kbps
    && opt_eqb v.up_kbps pending.up_kbps
    && (recipient_digest v.recipient == pending.recipient_digest)

elem_of_candidates :
    (d : String → String) (pending : PendingCreateIntent) (u : String) (vs : List ApiVoucher)
    → elem ◌==◌ u
        (map stripped_id (filter_by (is_compatible d pending) (filter_by (is_new pending) vs)))
      ≡ any_by (is_candidate d pending u) vs
elem_of_candidates d pending u [] = refl
elem_of_candidates d pending u (v ∷ vs) = elim (Bool-cases (is_new pending v)) [
  | inl n ↦ elim (Bool-cases (is_compatible d pending v)) [
    | inl h ↦ ground (arith, elem_of_candidates d pending u vs)
    | inr h ↦ ground (arith, elem_of_candidates d pending u vs)
  ]
  | inr n ↦ ground (arith, elem_of_candidates d pending u vs)
]

-- The compatible ids are, without repetition, those of the vouchers with an id that is not in the
-- baseline, whose validity, quota, three limits and digest of the recipient are those of the intent; the match is exact just when their number is the
-- quantity asked for, and ambiguous just when there are more.
pub match_pending-Candidates :
    (d : String → String) (pending : PendingCreateIntent) (vs : List ApiVoucher)
    → ((u : String)
        → elem ◌==◌ u (match_pending_create_intent d pending vs).compatible_ids
          ≡ any_by (is_candidate d pending u) vs)
      × (is_unique ◌==◌ (match_pending_create_intent d pending vs).compatible_ids ≡ true)
      × (((match_pending_create_intent d pending vs).status ≡ exact)
          ↔ (length (match_pending_create_intent d pending vs).compatible_ids ≡ pending.quantity))
      × (((match_pending_create_intent d pending vs).status ≡ ambiguous)
          ↔ (pending.quantity < length (match_pending_create_intent d pending vs).compatible_ids))
unfolding match_pending_create_intent
match_pending-Candidates d pending vs =
    let listed =
      map stripped_id (filter_by (is_compatible d pending) (filter_by (is_new pending) vs)) in
    let found = length (from_keys ◌==◌ listed) in
    (
      λ u. elem-from_keys ◌==◌ eq_iff u listed ∙ elem_of_candidates d pending u vs,
      from_keys-is_unique ◌==◌ eq_iff listed,
      ground (arith, eqb_iff found pending.quantity),
      ground (arith, eqb_iff found pending.quantity),
    )
