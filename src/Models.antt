-- ===== src/Models.antt =====
-- `ApiVoucher` of unifi_api.py, and the labels of models.py.
use voucher_management_deskt.Prelude.{
  String, ℕ, without_dashes, Option, if◌then◌else◌, eqb, length, codes, List, ◌≡◌, ◌∷◌, Bool, [],
  ◌==◌, any_by, ◌||◌, arith, eq_iff,
}

-- `status` is compared with two texts only. Times are seconds after 1970, 0 for none; the fields
-- `status_expires` and `admin_name` are left out, since nothing modelled reads them.
pub record ApiVoucher : Type 0 where
  pub id : String
  pub code : String
  pub recipient : String
  pub duration_minutes : ℕ
  pub create_time : ℕ
  pub quota : ℕ
  pub used : ℕ
  pub status : String
  pub start_time : ℕ
  pub end_time : ℕ
  pub data_mb : Option ℕ
  pub down_kbps : Option ℕ
  pub up_kbps : Option ℕ

abbrev split_code : String → String → String
split_code (String.◌∷◌ a (String.◌∷◌ b (String.◌∷◌ c (String.◌∷◌ d (String.◌∷◌ e rest))))) whole =
    String.◌∷◌ a (String.◌∷◌ b (String.◌∷◌ c (String.◌∷◌ d (String.◌∷◌ e (String.◌∷◌ "-" rest)))))
split_code _ whole = whole

-- the property `code_formatted`: five characters, a dash, five characters
unfoldable pub code_formatted : ApiVoucher → String
code_formatted v =
    let raw = without_dashes v.code in
    if eqb (length (codes raw)) 10 then split_code raw v.code else v.code

-- `by_id[voucher.id] = voucher`: a dictionary keeps the place of a key and takes the new value
unfoldable pub set_by_id : ApiVoucher → List ApiVoucher → List ApiVoucher
set_by_id v [] = v ∷ []
set_by_id v (w ∷ ws) = let rest = set_by_id v ws in if w.id == v.id then v ∷ ws else w ∷ rest

-- the entries of `vouchers`, one by one, into a dictionary
unfoldable pub add_by_id : List ApiVoucher → List ApiVoucher → List ApiVoucher
unfolding set_by_id
add_by_id d [] = d
add_by_id d (v ∷ vs) = add_by_id (set_by_id v d) vs

-- `{v.id: v for v in rows}`, then the entries of `vouchers`; the values
unfoldable pub merge_by_id : List ApiVoucher → List ApiVoucher → List ApiVoucher
unfolding add_by_id
merge_by_id rows vouchers = add_by_id (add_by_id [] rows) vouchers

abbrev pub has_voucher : String → List ApiVoucher → Bool
has_voucher u d = any_by (λ (v : ApiVoucher). v.id == u) d

pub has_voucher-set_by_id :
    (u : String) (v : ApiVoucher) (d : List ApiVoucher)
    → has_voucher u (set_by_id v d) ≡ (v.id == u || has_voucher u d)
unfolding set_by_id
has_voucher-set_by_id u v [] = ground arith
has_voucher-set_by_id u v (w ∷ ws) =
    ground (arith, has_voucher-set_by_id u v ws, eq_iff w.id v.id, eq_iff w.id u, eq_iff v.id u)

has_voucher-add_by_id :
    (u : String) (d vs : List ApiVoucher)
    → has_voucher u (add_by_id d vs) ≡ (has_voucher u d || has_voucher u vs)
unfolding add_by_id
has_voucher-add_by_id u d [] = ground arith
has_voucher-add_by_id u d (v ∷ vs) =
    ground (arith, has_voucher-add_by_id u (set_by_id v d) vs, has_voucher-set_by_id u v d)

-- A dictionary has the keys of both sources.
pub has_voucher-merge_by_id :
    (u : String) (rows vs : List ApiVoucher)
    → has_voucher u (merge_by_id rows vs) ≡ (has_voucher u rows || has_voucher u vs)
unfolding merge_by_id
has_voucher-merge_by_id u rows vs =
    ground (arith, has_voucher-add_by_id u (add_by_id [] rows) vs, has_voucher-add_by_id u [] rows)
