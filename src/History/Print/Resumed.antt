-- ===== src/History/Print/Resumed.antt =====
-- A recording of a print that was interrupted after some rows, run again (history.py).
use voucher_management_deskt.History.Print.{record_print_records, missing_records}
use voucher_management_deskt.Database.Action.{ok}
use voucher_management_deskt.Prelude.{
  String, List, ◌≡◌, elem, all_by, false, ◌||◌, true, [], ◌∷◌, any_by, and_intro, arith, is_empty,
  ◌&&◌, is_unique, or_true_right, ◌==◌, ◌∙◌, refl, ◌++◌, map, none, ++-nil, sym, subst, ap,
  ++-assoc, is_unique-append_left,
}
use voucher_management_deskt.Json.{Fields, Python}
use voucher_management_deskt.History.Base.{
  Line, row, for_items, items_of, read_lines, lines, Platform, Env, append, flushed, write_lines,
  Disk,
}
use voucher_management_deskt.History.Journal.{
  is_job_row, collect, job_key, key_eqb, keys_within, found_key, verify_print_job, Key,
}
use voucher_management_deskt.History.Print.Behind.{
  is_plain, entry, rev_onto, read_lines-append, fold_rows-append, collect_others, found_others,
  collect_rows, found_rows, key_set_rows, voucher_of,
}
use voucher_management_deskt.History.Print.Distinct.{
  vouchers, are_fresh_unique, map-append, all_by-append, expected_rows, missing_rest,
}

-- a key that equals itself is found
elem-rev_onto :
    (k : Key) (ks acc : List Key)
    → elem key_eqb k (rev_onto ks acc) ≡ (elem key_eqb k ks || elem key_eqb k acc)
elem-rev_onto k [] acc = refl
elem-rev_onto k (l ∷ ks) acc = ground (arith, elem-rev_onto k ks (l ∷ acc))

keys_within_grown :
    (ks ls names : List Key)
    → all_by (λ k. key_eqb k k) ks ≡ true
    → ((k : Key) → elem key_eqb k ks ≡ true → elem key_eqb k names ≡ true)
    → keys_within ks names ≡ true
keys_within_grown [] ls names h f = refl
keys_within_grown (k ∷ ks) ls names h f =
    and_intro (f k (ground arith))
      (keys_within_grown ks ls names (ground arith) (λ j e. f j (or_true_right _ _ e)))

rev_within :
    (ks acc names : List Key)
    → keys_within ks names ≡ true
    → keys_within acc names ≡ true
    → keys_within (rev_onto ks acc) names ≡ true
rev_within [] acc names h k = k
rev_within (l ∷ ks) acc names h k = rev_within ks (l ∷ acc) names (ground arith) (ground arith)

-- the keys of the rows and those that are found are the same set
same_keys :
    (ks : List Key)
    → all_by (λ k. key_eqb k k) ks ≡ true
    → (keys_within ks (rev_onto ks []) && keys_within (rev_onto ks []) ks) ≡ true
same_keys ks h =
    and_intro
      (keys_within_grown ks ks (rev_onto ks []) h (λ k e. elem-rev_onto k ks [] ∙ ground arith))
      (rev_within ks [] ks (keys_within_grown ks ks ks h (λ k e. e)) refl)

plain_keys :
    (py : Python) (audit_id : String) (rs : List Fields)
    → all_by (is_plain py audit_id) rs ≡ true
    → all_by (λ k. key_eqb k k) (map job_key rs) ≡ true
plain_keys py audit_id [] h = refl
plain_keys py audit_id (r ∷ rs) h =
    and_intro (ground arith) (plain_keys py audit_id rs (ground arith))

module _ (py : Python) (audit_id : String) (ls : List Line) (readable : (read_lines ls).1 ≡ false)
    (unused : any_by (is_job_row audit_id) (read_lines ls).0 ≡ false) where
  -- the rows of the job behind those of other jobs
  collected :
      (xs : List Fields)
      → all_by (is_plain py audit_id) xs ≡ true
      → is_unique ◌==◌ (vouchers py audit_id xs) ≡ true
      → for_items (collect py audit_id) [] (lines (ls ++ map row xs))
        ≡ ok (map (entry py audit_id) xs)
  unfolding for_items items_of
  collected xs h u = ground (
    arith,
    read_lines-append ls xs readable,
    fold_rows-append (collect py audit_id) (read_lines ls).0 xs []
        (collect_others py audit_id (read_lines ls).0 [] unused),
    collect_rows py audit_id xs [] h (are_fresh_unique py audit_id xs [] u),
  )

  verified :
      (rs : List Fields)
      → is_empty audit_id ≡ false
      → all_by (is_plain py audit_id) rs ≡ true
      → verify_print_job py rs audit_id (lines (ls ++ map row rs)) ≡ ok tt
  unfolding verify_print_job for_items items_of
  verified rs n h = ground (
    arith,
    key_set_rows py audit_id rs h,
    read_lines-append ls rs readable,
    fold_rows-append (found_key py (is_job_row audit_id) job_key) (read_lines ls).0 rs []
        (found_others py audit_id (read_lines ls).0 [] unused),
    found_rows py audit_id rs [] h,
    same_keys (map job_key rs) (plain_keys py audit_id rs h),
  )

  module _ (os : Platform) (env : Env) (appends : env.append_stops ≡ none) where
    append_rest :
        (xs ys : List Fields) (d : Disk)
        → d.journal ≡ lines (ls ++ map row xs)
        → append env ys d ≡ (ok tt, record d { journal = lines (ls ++ map row (xs ++ ys)) })
    unfolding append flushed write_lines
    append_rest xs [] d j =
        ap (λ k. (ok tt, record d { journal = k }))
          (j ∙ ap (λ l. lines (ls ++ map row l)) (sym (++-nil xs)))
    append_rest xs (y ∷ ys) d j =
        ground (arith, ++-assoc ls (map row xs) (map row (y ∷ ys)), map-append row xs (y ∷ ys))

    missing_ys :
        (xs ys : List Fields)
        → is_empty audit_id ≡ false
        → all_by (is_plain py audit_id) (xs ++ ys) ≡ true
        → is_unique ◌==◌ (vouchers py audit_id (xs ++ ys)) ≡ true
        → missing_records py os env (xs ++ ys) audit_id (lines (ls ++ map row xs)) ≡ ok ys
    unfolding missing_records
    missing_ys xs ys n h u =
        let u' =
          subst (λ l. is_unique ◌==◌ l ≡ true) (map-append (voucher_of py audit_id) xs ys) u in
        let h' = sym (all_by-append (is_plain py audit_id) xs ys) ∙ h in
        ground (
          arith,
          collected xs (ground arith)
              (is_unique-append_left ◌==◌ (vouchers py audit_id xs) (vouchers py audit_id ys) u'),
          expected_rows py audit_id xs ys h u,
          missing_rest py audit_id xs ys h u,
        )

    pub record_print_records_resumes :
        (xs ys : List Fields) (d : Disk)
        → d.journal ≡ lines (ls ++ map row xs)
        → is_empty audit_id ≡ false
        → all_by (is_plain py audit_id) (xs ++ ys) ≡ true
        → is_unique ◌==◌ (vouchers py audit_id (xs ++ ys)) ≡ true
        → record_print_records py os env (xs ++ ys) audit_id d
          ≡ (ok tt, record d { journal = lines (ls ++ map row (xs ++ ys)) })
    unfolding record_print_records
    record_print_records_resumes xs ys d j n h u = ground (
      arith,
      ap (missing_records py os env (xs ++ ys) audit_id) j,
      missing_ys xs ys n h u,
      append_rest xs ys d j,
      verified (xs ++ ys) n h,
    )
