-- ===== src/History/Print/Distinct.antt =====
-- The rows that are there and the rows that are missing, among records with distinct vouchers (history.py).
use voucher_management_deskt.History.Values.{is_text}
use voucher_management_deskt.History.Journal.{is_missing, expected_record, is_expected}
use voucher_management_deskt.Prelude.{
  String, List, ◌==◌, Bool, all_by, is_unique, map, ◌≡◌, ◌∷◌, arith, ◌++◌, true, not, ap, and_intro,
  [], ◌&&◌, eq_iff, refl, elem, is_unique-middle, elem-append, ++-assoc, any_by, ◌∙◌, Option,
  filter_by, some, subst, sym, eq_refl, filter_by-append, false, or_true_right, none, Option-cases,
  inl, inr,
}
use voucher_management_deskt.Json.{Fields, Python, find, Json, text}
use voucher_management_deskt.History.Print.Behind.{voucher_of, are_fresh, is_plain, entry}

all_by_mono :
    {A : Type 0} (p q : A → Bool) (xs : List A)
    → ((x : A) → p x ≡ true → q x ≡ true)
    → all_by p xs ≡ true
    → all_by q xs ≡ true
all_by_mono p q [] f h = refl
all_by_mono p q (x ∷ xs) f h = and_intro (f x (ground arith)) (all_by_mono p q xs f (ground arith))

all_by-map :
    {A B : Type 0} (p : B → Bool) (f : A → B) (xs : List A)
    → all_by p (map f xs) ≡ all_by (λ x. p (f x)) xs
all_by-map p f [] = refl
all_by-map p f (x ∷ xs) = ground (arith, all_by-map p f xs)

pub all_by-append :
    {A : Type 0} (p : A → Bool) (xs ys : List A)
    → all_by p (xs ++ ys) ≡ (all_by p xs && all_by p ys)
all_by-append p [] ys = refl
all_by-append p (x ∷ xs) ys = ground (arith, all_by-append p xs ys)

pub map-append :
    {A B : Type 0} (f : A → B) (xs ys : List A) → map f (xs ++ ys) ≡ map f xs ++ map f ys
map-append f [] ys = refl
map-append f (x ∷ xs) ys = ap (λ l. f x ∷ l) (map-append f xs ys)

eq_sym : (a b : String) → (a == b) ≡ (b == a)
eq_sym a b = ground (arith, eq_iff a b, eq_iff b a)

-- the vouchers behind a list are not in it
disjoint :
    (vs ws : List String)
    → is_unique ◌==◌ (vs ++ ws) ≡ true
    → all_by (λ w. not (elem ◌==◌ w vs)) ws ≡ true
disjoint vs [] u = refl
disjoint vs (w ∷ ws) u = and_intro (ap not (is_unique-middle ◌==◌ eq_iff w vs ws u)) (
    all_by_mono _ _ ws (λ x h. ground (arith, elem-append ◌==◌ x vs (w ∷ [])))
      (disjoint (vs ++ w ∷ []) ws (rw (++-assoc vs (w ∷ []) ws) u)))

is_text-some : (t : String) (v : Option Json) → is_text t v ≡ true → v ≡ some (text t)
unfolding is_text
is_text-some t (some (text s)) h = ap (λ x. some (text x)) ((eq_iff s t).0 h)
is_text-some t _ h = cc

first_elem :
    (v : String) (seen : List (String × Fields))
    → any_by (λ (e : String × Fields). e.0 == v) seen
      ≡ elem ◌==◌ v (map (λ (e : String × Fields). e.0) seen)
first_elem v [] = refl
first_elem v (e ∷ seen) = ground (arith, first_elem v seen, eq_sym e.0 v)

within_self :
    (vs names : List String)
    → ((v : String) → elem ◌==◌ v vs ≡ true → elem ◌==◌ v names ≡ true)
    → all_by (λ v. elem ◌==◌ v names) vs ≡ true
within_self [] names h = refl
within_self (v ∷ vs) names h =
    and_intro (h v (ground (arith, eq_refl v)))
      (within_self vs names (λ w e. h w (or_true_right _ _ e)))

filter_none :
    {A : Type 0} (p : A → Bool) (xs : List A)
    → all_by p xs ≡ true
    → filter_by (λ x. not (p x)) xs ≡ []
filter_none p [] h = refl
filter_none p (x ∷ xs) h = ground (arith, filter_none p xs)

filter_all : {A : Type 0} (p : A → Bool) (xs : List A) → all_by p xs ≡ true → filter_by p xs ≡ xs
filter_all p [] h = refl
filter_all p (x ∷ xs) h = ground (arith, filter_all p xs)

module _ (py : Python) (audit_id : String) where
  abbrev pub vouchers : List Fields → List String
  vouchers rs = map (voucher_of py audit_id) rs

  -- the voucher id of a plain row is a text
  text_id :
      (r : Fields)
      → is_plain py audit_id r ≡ true
      → find "voucher_id" r ≡ some (text (voucher_of py audit_id r))
  text_id r h = is_text-some (voucher_of py audit_id r) (find "voucher_id" r) (ground arith)

  -- whether a row of the voucher is among those of `xs`
  seen_elem :
      (xs : List Fields) (r : Fields)
      → is_plain py audit_id r ≡ true
      → any_by
          (λ (e : String × Fields). is_text e.0 (find "voucher_id" r))
          (map (entry py audit_id) xs)
        ≡ elem ◌==◌ (voucher_of py audit_id r) (vouchers xs)
  unfolding is_text
  seen_elem [] r h = refl
  seen_elem (x ∷ xs) r h = ground (arith, seen_elem xs r h, text_id r h)

  pub missing_rows :
      (xs zs : List Fields)
      → all_by (is_plain py audit_id) zs ≡ true
      → filter_by (is_missing (map (entry py audit_id) xs)) zs
        ≡ filter_by (λ r. not (elem ◌==◌ (voucher_of py audit_id r) (vouchers xs))) zs
  unfolding is_missing
  missing_rows xs [] h = refl
  missing_rows xs (z ∷ zs) h = ground (arith, missing_rows xs zs, seen_elem xs z)

  pub are_fresh_unique :
      (xs : List Fields) (seen : List (String × Fields))
      → is_unique ◌==◌ (map (λ (e : String × Fields). e.0) seen ++ vouchers xs) ≡ true
      → are_fresh py audit_id xs seen ≡ true
  are_fresh_unique [] seen u = refl
  are_fresh_unique (r ∷ xs) seen u =
      and_intro
        (ap not (
          first_elem (voucher_of py audit_id r) seen
          ∙ is_unique-middle ◌==◌ eq_iff (voucher_of py audit_id r)
              (map (λ (e : String × Fields). e.0) seen) (vouchers xs) u))
        (are_fresh_unique xs (seen ++ entry py audit_id r ∷ []) (
          subst (λ l. is_unique ◌==◌ l ≡ true)
            (sym (
                ++-assoc (map (λ (e : String × Fields). e.0) seen) (voucher_of py audit_id r ∷ [])
                  (vouchers xs))
              ∙ ap (λ l. l ++ vouchers xs)
                  (sym (map-append (λ (e : String × Fields). e.0) seen (entry py audit_id r ∷ []))))
            u))

  -- what is missing of `xs ++ ys` where the rows of `xs` are there
  pub missing_rest :
      (xs ys : List Fields)
      → all_by (is_plain py audit_id) (xs ++ ys) ≡ true
      → is_unique ◌==◌ (vouchers (xs ++ ys)) ≡ true
      → filter_by (is_missing (map (entry py audit_id) xs)) (xs ++ ys) ≡ ys
  missing_rest xs ys h u =
      let is_new = λ (r : Fields). not (elem ◌==◌ (voucher_of py audit_id r) (vouchers xs)) in
      missing_rows xs (xs ++ ys) h
      ∙ filter_by-append is_new xs ys
      ∙ ap (λ l. l ++ filter_by is_new ys)
          (filter_none (λ r. elem ◌==◌ (voucher_of py audit_id r) (vouchers xs)) xs
            (sym (all_by-map (λ v. elem ◌==◌ v (vouchers xs)) (voucher_of py audit_id) xs)
              ∙ within_self (vouchers xs) (vouchers xs) (λ v e. e)))
      ∙ filter_all is_new ys (
          sym (all_by-map (λ v. not (elem ◌==◌ v (vouchers xs))) (voucher_of py audit_id) ys)
          ∙ disjoint (vouchers xs) (vouchers ys)
              (subst (λ l. is_unique ◌==◌ l ≡ true) (map-append (voucher_of py audit_id) xs ys) u))

  expected_none :
      (v : String) (rs : List Fields)
      → all_by (is_plain py audit_id) rs ≡ true
      → elem ◌==◌ v (vouchers rs) ≡ false
      → expected_record v rs ≡ none
  unfolding expected_record is_text
  expected_none v [] h e = refl
  expected_none v (r ∷ rs) h e =
      ground (arith, expected_none v rs, text_id r, eq_sym v (voucher_of py audit_id r))

  later_expected :
      (x : Fields) (rs : List Fields) (r : Fields)
      → is_expected rs (entry py audit_id r) ≡ true
      → is_expected (x ∷ rs) (entry py audit_id r) ≡ true
  unfolding is_expected expected_record
  later_expected x rs r e = elim (Option-cases (expected_record (voucher_of py audit_id r) rs)) [
    | inl n ↦ ground arith
    | inr (y, n) ↦ ground arith
  ]

  expected_all :
      (rs : List Fields)
      → all_by (is_plain py audit_id) rs ≡ true
      → is_unique ◌==◌ (vouchers rs) ≡ true
      → all_by (λ r. is_expected rs (entry py audit_id r)) rs ≡ true
  unfolding is_expected expected_record
  expected_all [] h u = refl
  expected_all (x ∷ rs) h u =
      and_intro (ground (arith, expected_none (voucher_of py audit_id x) rs)) (
        all_by_mono (λ r. is_expected rs (entry py audit_id r)) _ rs
          (λ r e. later_expected x rs r e) (expected_all rs (ground arith) (ground arith)))

  -- the rows that are there are those of the records
  pub expected_rows :
      (xs ys : List Fields)
      → all_by (is_plain py audit_id) (xs ++ ys) ≡ true
      → is_unique ◌==◌ (vouchers (xs ++ ys)) ≡ true
      → all_by (is_expected (xs ++ ys)) (map (entry py audit_id) xs) ≡ true
  expected_rows xs ys h u =
      all_by-map (is_expected (xs ++ ys)) (entry py audit_id) xs
      ∙ ground (
        arith,
        expected_all (xs ++ ys) h u,
        all_by-append (λ r. is_expected (xs ++ ys) (entry py audit_id r)) xs ys,
      )
