-- ===== src/History/Print/Behind.antt =====
-- What the loops of history.py over the journal find behind rows of other jobs.
use voucher_management_deskt.Database.Action.{Result, ok, Result-cases}
use voucher_management_deskt.Prelude.{
  String, List, Bool, ◌∷◌, ◌&&◌, all_by, any_by, map, true, ◌≡◌, [], false, not, arith, ◌++◌, ◌==◌,
  refl, ap, inl, sym, ++-nil, inr, ++-assoc,
}
use voucher_management_deskt.Json.{Fields, Python, find}
use voucher_management_deskt.History.Base.{Line, row, fold_rows, read_lines, blank, damaged}
use voucher_management_deskt.History.Values.{text_or_empty, is_text, is_hashable}
use voucher_management_deskt.History.Journal.{
  is_job_row, collect, agrees, job_key, key_set, key_eqb, found_key, Key,
}

read_lines-rows : (xs : List Fields) → read_lines (map row xs) ≡ (xs, false)
unfolding read_lines
read_lines-rows [] = refl
read_lines-rows (x ∷ xs) = ground (arith, read_lines-rows xs)

-- rows that are read stay in front of the new ones
pub read_lines-append :
    (ls : List Line) (xs : List Fields)
    → (read_lines ls).1 ≡ false
    → read_lines (ls ++ map row xs) ≡ ((read_lines ls).0 ++ xs, false)
unfolding read_lines
read_lines-append [] xs h = read_lines-rows xs
read_lines-append (blank ∷ ls) xs h = read_lines-append ls xs h
read_lines-append (damaged ∷ ls) xs h = cc
read_lines-append (row r ∷ ls) xs h = ground (arith, read_lines-append ls xs h)

pub fold_rows-append :
    {S : Type 0} (step : S → Fields → Result S) (xs ys : List Fields) (s : S) {t : S}
    → fold_rows step s xs ≡ ok t
    → fold_rows step s (xs ++ ys) ≡ fold_rows step t ys
unfolding fold_rows
fold_rows-append step [] ys s h = ground arith
fold_rows-append step (x ∷ xs) ys s {t} h = elim (Result-cases (step s x)) [
  | inl (u, e) ↦ ground (arith, fold_rows-append step xs ys u {t = t})
  | inr (x', e) ↦ ground arith
]

-- the keys, last first
abbrev pub rev_onto : List Key → List Key → List Key
rev_onto [] acc = acc
rev_onto (k ∷ ks) acc = rev_onto ks (k ∷ acc)

module _ (py : Python) (audit_id : String) where
  abbrev pub voucher_of : Fields → String
  voucher_of r = text_or_empty py (find "voucher_id" r)

  -- a row of the job whose compared values are texts and numbers
  abbrev pub is_plain : Fields → Bool
  is_plain r =
      is_job_row audit_id r
      && is_text (voucher_of r) (find "voucher_id" r)
      && agrees r r
      && all_by is_hashable (job_key r)
      && key_eqb (job_key r) (job_key r)

  abbrev pub entry : Fields → String × Fields
  entry r = (voucher_of r, r)

  pub collect_others :
      (rows : List Fields) (seen : List (String × Fields))
      → any_by (is_job_row audit_id) rows ≡ false
      → fold_rows (collect py audit_id) seen rows ≡ ok seen
  unfolding fold_rows collect
  collect_others [] seen h = refl
  collect_others (r ∷ rows) seen h = ground (arith, collect_others rows seen)

  pub found_others :
      (rows : List Fields) (found : List Key)
      → any_by (is_job_row audit_id) rows ≡ false
      → fold_rows (found_key py (is_job_row audit_id) job_key) found rows ≡ ok found
  unfolding fold_rows found_key
  found_others [] found h = refl
  found_others (r ∷ rows) found h = ground (arith, found_others rows found)

  -- no voucher of the rows is among those seen, and none twice
  abbrev pub are_fresh : List Fields → List (String × Fields) → Bool
  are_fresh [] seen = true
  are_fresh (r ∷ rs) seen =
      not (any_by (λ (e : String × Fields). e.0 == voucher_of r) seen)
      && are_fresh rs (seen ++ entry r ∷ [])

  pub collect_rows :
      (xs : List Fields) (seen : List (String × Fields))
      → all_by is_plain xs ≡ true
      → are_fresh xs seen ≡ true
      → fold_rows (collect py audit_id) seen xs ≡ ok (seen ++ map entry xs)
  unfolding fold_rows collect
  collect_rows [] seen h f = ap ok (sym (++-nil seen))
  collect_rows (r ∷ xs) seen h f =
      ground
        (arith, collect_rows xs (seen ++ entry r ∷ []), ++-assoc seen (entry r ∷ []) (map entry xs))

  pub found_rows :
      (xs : List Fields) (found : List Key)
      → all_by is_plain xs ≡ true
      → fold_rows (found_key py (is_job_row audit_id) job_key) found xs
        ≡ ok (rev_onto (map job_key xs) found)
  unfolding fold_rows found_key
  found_rows [] found h = refl
  found_rows (r ∷ xs) found h = ground (arith, found_rows xs (job_key r ∷ found))

  pub key_set_rows :
      (xs : List Fields) → all_by is_plain xs ≡ true → key_set job_key xs ≡ ok (map job_key xs)
  unfolding key_set
  key_set_rows [] h = refl
  key_set_rows (r ∷ xs) h = ground (arith, key_set_rows xs)
