-- ===== src/Database/PrintLabels/Named.antt =====
-- The labels of a call of `record_print_audit` (database.py), and the rows that have them.
use voucher_management_deskt.Database.Action.{ok, ok_injective}
use voucher_management_deskt.Database.PrintLabels.{
  PrintAudit, labels_of, names_row, counter, label_counts, normalized_codes,
}
use voucher_management_deskt.Database.Rows.{Voucher}
use voucher_management_deskt.Prelude.{
  String, Bool, ℕ, List, Option, eqb, elem, map, ◌==◌, not, any_by, ◌≡◌, strip, ◌&&◌, ◌∷◌, some, ap,
  is_empty, from_keys, none, ◌||◌, Bool-cases, without_dashes, arith, sym, count_by, ◌∙◌, inl,
  elem-from_keys, [], length, refl, eq_iff, inr, true,
}

abbrev pub keys_of_labels : List (String × ℕ) → List String
keys_of_labels labels = map (λ (l : String × ℕ). l.0) labels

-- Is this text a label of the audit: one of its remote ids, or, without these, one of its codes?
abbrev pub is_code_label : String → String → Bool
is_code_label key code = not (is_empty (strip code)) && (key == without_dashes (strip code))

abbrev pub is_id_label : String → String → Bool
is_id_label key unifi_id = key == strip unifi_id

abbrev pub is_label_of : String → List String → Option (List String) → Bool
is_label_of key codes none = any_by (is_code_label key) codes
is_label_of key codes (some ids) = any_by (is_id_label key) ids

abbrev pub is_label : PrintAudit → String → Bool
is_label a key = is_label_of key a.codes a.unifi_ids

-- Is this the row of the controller that has the label as its remote id, or as its code?
abbrev pub row_of_label : Option (List String) → ℕ → String → Voucher → Bool
row_of_label none c key v = eqb v.controller_id c && (without_dashes v.code == key)
row_of_label (some ids) c key v = eqb v.controller_id c && (v.unifi_id == key)

abbrev pub is_row_of : PrintAudit → ℕ → String → Voucher → Bool
is_row_of a c key v = row_of_label a.unifi_ids c key v

keys_of_counter : (xs : List String) → keys_of_labels (counter xs) ≡ from_keys ◌==◌ xs
unfolding counter
keys_of_counter xs = map_first (from_keys ◌==◌ xs)
  where
    map_first :
        (ks : List String)
        → map (λ (l : String × ℕ). l.0) (map (λ k. (k, count_by (λ x. x == k) xs)) ks) ≡ ks
    map_first [] = refl
    map_first (k ∷ ks) = ap (λ t. k ∷ t) (map_first ks)

elem-counter :
    (key : String) (xs : List String)
    → elem ◌==◌ key (keys_of_labels (counter xs)) ≡ elem ◌==◌ key xs
elem-counter key xs = ap (elem ◌==◌ key) (keys_of_counter xs) ∙ elem-from_keys ◌==◌ eq_iff key xs

elem-ids :
    (key : String) (ids : List String)
    → elem ◌==◌ key (map strip ids) ≡ any_by (is_id_label key) ids
elem-ids key [] = refl
elem-ids key (x ∷ ids) = ap (λ b. (key == strip x) || b) (elem-ids key ids)

elem-codes :
    (key : String) (codes : List String)
    → elem ◌==◌ key (normalized_codes codes) ≡ any_by (is_code_label key) codes
unfolding normalized_codes
elem-codes key [] = refl
elem-codes key (x ∷ codes) = elim (Bool-cases (is_empty (strip x))) [
  | inl e ↦ rw e (elem-codes key codes)
  | inr e ↦ rw e (ap (λ b. (key == without_dashes (strip x)) || b) (elem-codes key codes))
]

pub label_counts-ok :
    (key : String) (c : ℕ) (codes : List String) (o : Option (List String))
    {labels : Bool × List (String × ℕ)}
    → label_counts codes o ≡ ok labels
    → (elem ◌==◌ key (keys_of_labels labels.1) ≡ is_label_of key codes o)
      × ((v : Voucher) → names_row labels.0 c key v ≡ row_of_label o c key v)
unfolding label_counts names_row
label_counts-ok key c codes none {labels} h =
    let found : elem ◌==◌ key (keys_of_labels labels.1)
        ≡ elem ◌==◌ key (keys_of_labels (counter (normalized_codes codes))) =
      sym (ap (λ l. elem ◌==◌ key (keys_of_labels l.1)) (ok_injective h)) in
    (
      found ∙ elem-counter key (normalized_codes codes) ∙ elem-codes key codes,
      λ v. sym (ap (λ l. names_row l.0 c key v) (ok_injective h)),
    )
label_counts-ok key c codes (some ids) {labels} h =
    elim (Bool-cases
      (not (eqb (length (map strip ids)) (length codes)) || any_by is_empty (map strip ids))) [
        | inl e ↦ absurd (ground (arith, rw e at h))
        | inr e ↦
            (let same : (true, counter (map strip ids)) ≡ labels = ok_injective (rw e at h) in
              (
                sym (ap (λ l. elem ◌==◌ key (keys_of_labels l.1)) same)
                    ∙ elem-counter key (map strip ids)
                    ∙ elem-ids key ids,
                λ v. sym (ap (λ l. names_row l.0 c key v) same),
              ))
      ]

pub labels_of-ok :
    (a : PrintAudit) {labels : Bool × List (String × ℕ)}
    → labels_of a ≡ ok labels
    → label_counts a.codes a.unifi_ids ≡ ok labels
unfolding labels_of
labels_of-ok a h = ground arith
