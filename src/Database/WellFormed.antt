-- ===== src/Database/WellFormed.antt =====
-- The constraints that the voucher table keeps: the rows stand in the order of their rowids, and no
-- two have one (controller_id, unifi_id). Laws of the queries and updates that respect them.
use voucher_management_deskt.Prelude.{
  ℕ, ◌<◌, ◌≡◌, refl, String, eq_iff, Bool, true, false, ◌||◌, Option, none, some, List, [], ◌∷◌,
  ◌++◌, arith, if◌then◌else◌, any_by, find_by, update_by, All, Bool-cases, inl, inr,
}
use voucher_management_deskt.Database.Rows.{Voucher, has_key, max_id, next_id}

abbrev pub Ascending : List Voucher → Type 0
Ascending [] = Unit
Ascending (v ∷ vs) = All (λ w. v.id < w.id) vs × Ascending vs

abbrev pub KeysUnique : List Voucher → Type 0
KeysUnique [] = Unit
KeysUnique (v ∷ vs) = (any_by (has_key v.controller_id v.unifi_id) vs ≡ false) × KeysUnique vs

pub record IsWellFormed (vs : List Voucher) : Type 0 where
  pub ascending : Ascending vs
  pub keys_unique : KeysUnique vs

-- the row that `WHERE controller_id=? AND unifi_id=?` finds
abbrev pub row_at : ℕ → String → List Voucher → Option Voucher
row_at c u vs = find_by (has_key c u) vs

-- An update that keeps the columns of the constraints.
pub record KeepsIdentity (f : Voucher → Voucher) : Type 0 where
  pub same_id : (v : Voucher) → (f v).id ≡ v.id
  pub same_controller : (v : Voucher) → (f v).controller_id ≡ v.controller_id
  pub same_unifi_id : (v : Voucher) → (f v).unifi_id ≡ v.unifi_id

abbrev pub apply_if : (Voucher → Bool) → (Voucher → Voucher) → Option Voucher → Option Voucher
apply_if p f none = none
apply_if p f (some v) = some (if p v then f v else v)

module _ (p : Voucher → Bool) (f : Voucher → Voucher) (k : KeepsIdentity f) where
  pub any_by-update_by :
      (c : ℕ) (u : String) (vs : List Voucher)
      → any_by (has_key c u) (update_by p f vs) ≡ any_by (has_key c u) vs
  any_by-update_by c u [] = refl
  any_by-update_by c u (v ∷ vs) =
      ground (arith, any_by-update_by c u vs, k.same_controller v, k.same_unifi_id v)

  pub row_at-update_by :
      (c : ℕ) (u : String) (vs : List Voucher)
      → row_at c u (update_by p f vs) ≡ apply_if p f (row_at c u vs)
  row_at-update_by c u [] = refl
  row_at-update_by c u (v ∷ vs) =
      ground (arith, row_at-update_by c u vs, k.same_controller v, k.same_unifi_id v)

  All-update_by :
      (n : ℕ) (vs : List Voucher) → All (λ w. n < w.id) vs → All (λ w. n < w.id) (update_by p f vs)
  All-update_by n [] h = tt
  All-update_by n (v ∷ vs) h = (ground (arith, k.same_id v), All-update_by n vs h.1)

  Ascending-update_by : (vs : List Voucher) → Ascending vs → Ascending (update_by p f vs)
  Ascending-update_by [] h = tt
  Ascending-update_by (v ∷ vs) h = elim (Bool-cases (p v)) [
    | inl e ↦ rw (e, k.same_id v) (All-update_by v.id vs h.0, Ascending-update_by vs h.1)
    | inr e ↦ rw e (All-update_by v.id vs h.0, Ascending-update_by vs h.1)
  ]

  KeysUnique-update_by : (vs : List Voucher) → KeysUnique vs → KeysUnique (update_by p f vs)
  KeysUnique-update_by [] h = tt
  KeysUnique-update_by (v ∷ vs) h = elim (Bool-cases (p v)) [
    | inl e ↦
        rw
          (
            e,
            k.same_controller v,
            k.same_unifi_id v,
            any_by-update_by v.controller_id v.unifi_id vs,
          )
          (h.0, KeysUnique-update_by vs h.1)
    | inr e ↦
        rw (e, any_by-update_by v.controller_id v.unifi_id vs) (h.0, KeysUnique-update_by vs h.1)
  ]

  -- An UPDATE that leaves the key columns alone keeps the constraints.
  pub update_by-IsWellFormed :
      (vs : List Voucher) → IsWellFormed vs → IsWellFormed (update_by p f vs)
  update_by-IsWellFormed vs h = record {
    ascending = Ascending-update_by vs h.ascending;
    keys_unique = KeysUnique-update_by vs h.keys_unique;
  }

pub max_id-le : (n : ℕ) (vs : List Voucher) → max_id (λ v. v.id) vs < n → All (λ w. w.id < n) vs
unfolding max_id
max_id-le n [] h = tt
max_id-le n (v ∷ vs) h = (omega arith, max_id-le n vs (omega arith))

module _ (r : Voucher) where
  All-append_one :
      (n : ℕ) (vs : List Voucher)
      → All (λ w. n < w.id) vs
      → n < r.id
      → All (λ w. n < w.id) (vs ++ r ∷ [])
  All-append_one n [] h l = (l, tt)
  All-append_one n (v ∷ vs) h l = (h.0, All-append_one n vs h.1 l)

  Ascending-append_one :
      (vs : List Voucher) → All (λ w. w.id < r.id) vs → Ascending vs → Ascending (vs ++ r ∷ [])
  Ascending-append_one [] l h = (tt, tt)
  Ascending-append_one (v ∷ vs) l h =
      (All-append_one v.id vs h.0 l.0, Ascending-append_one vs l.1 h.1)

  pub any_by-append_one :
      (c : ℕ) (u : String) (vs : List Voucher)
      → any_by (has_key c u) (vs ++ r ∷ []) ≡ (any_by (has_key c u) vs || has_key c u r)
  any_by-append_one c u [] = ground arith
  any_by-append_one c u (v ∷ vs) = ground (arith, any_by-append_one c u vs)

  KeysUnique-append_one :
      (vs : List Voucher)
      → any_by (has_key r.controller_id r.unifi_id) vs ≡ false
      → KeysUnique vs
      → KeysUnique (vs ++ r ∷ [])
  KeysUnique-append_one [] n h = (refl, tt)
  KeysUnique-append_one (v ∷ vs) n h = (
    ground (
      arith,
      any_by-append_one v.controller_id v.unifi_id vs,
      eq_iff v.unifi_id r.unifi_id,
      eq_iff r.unifi_id v.unifi_id,
    ),
    KeysUnique-append_one vs (ground arith) h.1,
  )

  -- An INSERT with the next rowid and a key that is not there keeps the constraints.
  pub append-IsWellFormed :
      (vs : List Voucher)
      → r.id ≡ next_id (λ v. v.id) vs
      → any_by (has_key r.controller_id r.unifi_id) vs ≡ false
      → IsWellFormed vs
      → IsWellFormed (vs ++ r ∷ [])
  append-IsWellFormed vs e n h = record {
    ascending = Ascending-append_one vs (max_id-le r.id vs (omega arith)) h.ascending;
    keys_unique = KeysUnique-append_one vs n h.keys_unique;
  }

  -- A row that is appended is found where no row of its key stood.
  pub row_at-append_one :
      (c : ℕ) (u : String) (vs : List Voucher)
      → row_at c u (vs ++ r ∷ []) ≡ (
          if any_by (has_key c u) vs then row_at c u vs else if has_key c u r then some r else none)
  row_at-append_one c u [] = ground arith
  row_at-append_one c u (v ∷ vs) = ground (arith, row_at-append_one c u vs)

pub any_by-row_at :
    (c : ℕ) (u : String) (v : Voucher) (vs : List Voucher)
    → row_at c u vs ≡ some v
    → any_by (has_key c u) vs ≡ true
any_by-row_at c u x [] h = cc
any_by-row_at c u x (v ∷ vs) h = ground (arith, any_by-row_at c u x vs)

pub has_key-row_at :
    (c : ℕ) (u : String) (v : Voucher) (vs : List Voucher)
    → row_at c u vs ≡ some v
    → has_key c u v ≡ true
has_key-row_at c u x [] h = cc
has_key-row_at c u x (v ∷ vs) h = ground (arith, has_key-row_at c u x vs)

pub row_at-none :
    (c : ℕ) (u : String) (vs : List Voucher)
    → any_by (has_key c u) vs ≡ false
    → row_at c u vs ≡ none
row_at-none c u [] h = refl
row_at-none c u (v ∷ vs) h = ground (arith, row_at-none c u vs)
