-- ===== src/Review/Disjoint.antt =====
-- No voucher stands on two of the three lists for review.
use voucher_management_deskt.Prelude.{
  Bool, String, ℕ, List, ◌&&◌, Option, any_by, count_by, ◌≡◌, filter_by, false, ◌≤◌, ◌∷◌, arith, [],
  refl,
}
use voucher_management_deskt.Database.Selection.{one_row_per_id}
use voucher_management_deskt.Database.WellFormed.{IsWellFormed}
use voucher_management_deskt.Database.Rows.{Db, Voucher, has_id}
use voucher_management_deskt.Review.Queries.{Clock, any_by-sort_by, sort_by}
use voucher_management_deskt.Review.Revocation.{is_revocation_candidate, revocation_rows}
use voucher_management_deskt.Review.Alerts.{is_unprinted_candidate, warning_rows}
use voucher_management_deskt.Review.Retention.{is_retention_candidate, retention_rows}

-- a row with the key among those that a test keeps
any_by-filter_by :
    {A : Type 0} (p q : A → Bool) (xs : List A)
    → any_by p (filter_by q xs) ≡ any_by (λ x. p x && q x) xs
any_by-filter_by p q [] = refl
any_by-filter_by p q (x ∷ xs) = ground (arith, any_by-filter_by p q xs)

none_of :
    {A : Type 0} (p q : A → Bool) (xs : List A)
    → count_by p xs ≡ 0
    → any_by (λ x. p x && q x) xs ≡ false
none_of p q [] h = refl
none_of p q (x ∷ xs) h = ground (arith, none_of p q xs)

-- one row at most has the key, and no row passes both tests
not_both :
    {A : Type 0} (p q r : A → Bool) (xs : List A)
    → count_by p xs ≤ 1
    → ((x : A) → (q x && r x) ≡ false)
    → (any_by (λ x. p x && q x) xs && any_by (λ x. p x && r x) xs) ≡ false
not_both p q r [] h never = refl
not_both p q r (x ∷ xs) h never =
    ground (arith, not_both p q r xs, none_of p q xs, none_of p r xs, never x)

-- is the voucher with this rowid among the rows?
abbrev pub is_listed : ℕ → List Voucher → Bool
is_listed k rows = any_by (has_id k) rows

module _ (clock : Clock) (db : Db) where
  revocation_or_warning :
      (s t : String) (c d : Option ℕ) (v : Voucher)
      → (is_revocation_candidate clock db s c v && is_unprinted_candidate clock db t d v) ≡ false
  unfolding is_revocation_candidate is_unprinted_candidate
  revocation_or_warning s t c d v = ground arith

  present_or_absent :
      (s t : String) (c d : Option ℕ) (v : Voucher)
      → (is_revocation_candidate clock db s c v && is_retention_candidate clock db t d v) ≡ false
  unfolding is_revocation_candidate is_retention_candidate
  present_or_absent s t c d v = ground arith

  warned_or_retained :
      (s t : String) (c d : Option ℕ) (v : Voucher)
      → (is_unprinted_candidate clock db s c v && is_retention_candidate clock db t d v) ≡ false
  unfolding is_unprinted_candidate is_retention_candidate
  warned_or_retained s t c d v = ground arith

  apart :
      (k : ℕ) (before before' : Voucher → Voucher → Bool) (q r : Voucher → Bool)
      → IsWellFormed db.vouchers
      → ((v : Voucher) → (q v && r v) ≡ false)
      → (is_listed k (sort_by before (filter_by q db.vouchers))
          && is_listed k (sort_by before' (filter_by r db.vouchers)))
        ≡ false
  apart k before before' q r w never = ground (
    arith,
    any_by-sort_by before (has_id k) (filter_by q db.vouchers),
    any_by-sort_by before' (has_id k) (filter_by r db.vouchers),
    any_by-filter_by (has_id k) q db.vouchers,
    any_by-filter_by (has_id k) r db.vouchers,
    not_both (has_id k) q r db.vouchers (one_row_per_id k db.vouchers w.ascending) never,
  )

  -- Whatever the three cutoffs and the controllers asked for, no row is listed twice: not for security
  -- revocation and for the warning of unprinted vouchers, nor for either and for retention.
  pub review_rows_disjoint :
      IsWellFormed db.vouchers
      → (s t u : String) (c d e : Option ℕ) (k : ℕ)
      → ((is_listed k (revocation_rows clock db s c) && is_listed k (warning_rows clock db t d))
          ≡ false)
        × ((is_listed k (revocation_rows clock db s c) && is_listed k (retention_rows clock db u e))
            ≡ false)
        × ((is_listed k (warning_rows clock db t d) && is_listed k (retention_rows clock db u e))
            ≡ false)
  unfolding revocation_rows warning_rows retention_rows
  review_rows_disjoint w s t u c d e k = (
    apart k _ _ (is_revocation_candidate clock db s c) (is_unprinted_candidate clock db t d) w
        (revocation_or_warning s t c d),
    apart k _ _ (is_revocation_candidate clock db s c) (is_retention_candidate clock db u e) w
        (present_or_absent s u c e),
    apart k _ _ (is_unprinted_candidate clock db t d) (is_retention_candidate clock db u e) w
        (warned_or_retained t u d e),
  )
