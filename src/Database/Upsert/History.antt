-- ===== src/Database/Upsert/History.antt =====
-- What an upsert keeps of a row, what it makes of the table, and when it is refused.
use voucher_management_deskt.Prelude.{
  ℕ, ◌≤◌, ◌≡◌, ◌≢◌, refl, String, eq_iff, true, false, Option, none, some, List, [], ◌∷◌, ◌++◌,
  arith, if◌then◌else◌, is_some, any_by, Bool-cases, inl, inr, ◌⊎◌,
}
use voucher_management_deskt.Database.Rows.{Voucher, Db, has_key, next_id}
use voucher_management_deskt.Database.Action.{ok}
use voucher_management_deskt.Database.WellFormed.{
  IsWellFormed, KeepsIdentity, row_at, apply_if, row_at-update_by, update_by-IsWellFormed,
  append-IsWellFormed, row_at-append_one, any_by-row_at, has_key-row_at, row_at-none,
}
use voucher_management_deskt.Database.Upsert.{
  UpsertValues, inserted_row, updated_row, upsert_rows, violates_constraint, upsert_voucher,
}

updated_row-KeepsIdentity : (x : UpsertValues) → KeepsIdentity (updated_row x)
unfolding updated_row
updated_row-KeepsIdentity x = record {
  same_id = λ v. refl;
  same_controller = λ v. refl;
  same_unifi_id = λ v. refl;
}

-- One row per key: the table keeps its constraints.
pub upsert_rows-IsWellFormed :
    (x : UpsertValues) (vs : List Voucher) → IsWellFormed vs → IsWellFormed (upsert_rows x vs)
unfolding upsert_rows
upsert_rows-IsWellFormed x vs h =
    elim (Bool-cases (any_by (has_key x.controller_id x.unifi_id) vs)) [
      | inl e ↦ rw e (
          update_by-IsWellFormed (has_key x.controller_id x.unifi_id) (updated_row x)
            (updated_row-KeepsIdentity x) vs h)
      | inr e ↦ rw e (append-IsWellFormed (inserted_row x (next_id (λ v. v.id) vs)) vs refl e h)
    ]

-- A row that was there is merged; a new one is inserted.
pub row_at-upsert_rows :
    (x : UpsertValues) (vs : List Voucher) {old : Voucher}
    → row_at x.controller_id x.unifi_id vs ≡ some old
    → row_at x.controller_id x.unifi_id (upsert_rows x vs) ≡ some (updated_row x old)
unfolding upsert_rows
row_at-upsert_rows x vs {old} h = rw (
  any_by-row_at x.controller_id x.unifi_id old vs h,
  row_at-update_by (has_key x.controller_id x.unifi_id) (updated_row x)
      (updated_row-KeepsIdentity x) x.controller_id x.unifi_id vs,
  h,
  has_key-row_at x.controller_id x.unifi_id old vs h,
)

pub row_at-upsert_rows_new :
    (x : UpsertValues) (vs : List Voucher)
    → any_by (has_key x.controller_id x.unifi_id) vs ≡ false
    → row_at x.controller_id x.unifi_id (upsert_rows x vs)
      ≡ some (inserted_row x (next_id (λ v. v.id) vs))
unfolding upsert_rows inserted_row
row_at-upsert_rows_new x vs h = ground (
  arith,
  row_at-append_one (inserted_row x (next_id (λ v. v.id) vs)) x.controller_id x.unifi_id vs,
  eq_iff x.unifi_id x.unifi_id,
)

other_key :
    (c d : ℕ) (u w : String) (v : Voucher)
    → (d ≢ c) ⊎ (w ≢ u)
    → has_key d w v ≡ true
    → has_key c u v ≡ false
other_key c d u w v n h = ground (arith, eq_iff v.unifi_id w, eq_iff v.unifi_id u)

not_merged :
    (x : UpsertValues) (c : ℕ) (u : String) (o : Option Voucher)
    → (c ≢ x.controller_id) ⊎ (u ≢ x.unifi_id)
    → ((v : Voucher) → o ≡ some v → has_key c u v ≡ true)
    → apply_if (has_key x.controller_id x.unifi_id) (updated_row x) o ≡ o
not_merged x c u none n h = refl
not_merged x c u (some v) n h = rw (other_key x.controller_id c x.unifi_id u v n (h v refl))

not_inserted :
    (x : UpsertValues) (c : ℕ) (u : String) (vs : List Voucher)
    → (c ≢ x.controller_id) ⊎ (u ≢ x.unifi_id)
    → row_at c u (vs ++ inserted_row x (next_id (λ v. v.id) vs) ∷ []) ≡ row_at c u vs
unfolding inserted_row
not_inserted x c u vs n = ground (
  arith,
  row_at-append_one (inserted_row x (next_id (λ v. v.id) vs)) c u vs,
  row_at-none c u vs,
  eq_iff x.unifi_id u,
)

-- A row of another key is not touched.
pub row_at-upsert_rows_other :
    (x : UpsertValues) (c : ℕ) (u : String) (vs : List Voucher)
    → (c ≢ x.controller_id) ⊎ (u ≢ x.unifi_id)
    → row_at c u (upsert_rows x vs) ≡ row_at c u vs
unfolding upsert_rows
row_at-upsert_rows_other x c u vs n =
    elim (Bool-cases (any_by (has_key x.controller_id x.unifi_id) vs)) [
      | inl e ↦
          rw
            (
              e,
              row_at-update_by (has_key x.controller_id x.unifi_id) (updated_row x)
                  (updated_row-KeepsIdentity x) c u vs,
            )
            (not_merged x c u (row_at c u vs) n (λ v. has_key-row_at c u v vs))
      | inr e ↦ rw e (not_inserted x c u vs n)
    ]

-- What Voucher Management knows by itself, and what it has once observed.
pub record KeepsHistory (old new : Voucher) : Type 0 where
  pub id : new.id ≡ old.id
  pub imported_at : new.imported_at ≡ old.imported_at
  pub print_state : new.print_state ≡ old.print_state
  pub is_nominal : new.is_nominal ≡ old.is_nominal
  pub alignment_completed_at : new.alignment_completed_at ≡ old.alignment_completed_at
  pub nominality_redacted : new.nominality_redacted ≡ old.nominality_redacted
  pub ever_used : old.ever_used ≡ true → new.ever_used ≡ true
  pub guest_count : old.authorized_guest_count ≤ new.authorized_guest_count
  pub expired : old.expired ≡ true → new.expired ≡ true
  pub activated_at : is_some old.activated_at ≡ true → new.activated_at ≡ old.activated_at
  pub expires_at : is_some old.expires_at ≡ true → is_some new.expires_at ≡ true

pub updated_row-KeepsHistory : (x : UpsertValues) (v : Voucher) → KeepsHistory v (updated_row x v)
unfolding updated_row
updated_row-KeepsHistory x v = ground arith

-- The table after the call: unchanged if a constraint refuses it.
pub vouchers-upsert_voucher :
    (x : UpsertValues) (db : Db)
    → (upsert_voucher x db).1 ≡ (
        if violates_constraint x db then db else record db { vouchers = upsert_rows x db.vouchers })
unfolding upsert_voucher
vouchers-upsert_voucher x db = ground arith

-- the row that the table holds after an upsert, and its rowid
pub upsert_voucher-known :
    (x : UpsertValues) (db : Db) {old : Voucher}
    → row_at x.controller_id x.unifi_id db.vouchers ≡ some old
    → x.authorized_guest_limit ≢ some 0
    → upsert_voucher x db ≡ (ok old.id, record db { vouchers = upsert_rows x db.vouchers })
unfolding upsert_voucher updated_row
upsert_voucher-known x db {old} h l = ground (
  arith,
  row_at-upsert_rows x db.vouchers h,
  any_by-row_at x.controller_id x.unifi_id old db.vouchers h,
)
