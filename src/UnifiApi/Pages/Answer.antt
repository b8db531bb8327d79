-- ===== src/UnifiApi/Pages/Answer.antt =====
-- What an answer of `list_vouchers` of unifi_api.py is, whatever the controller sends.
use voucher_management_deskt.UnifiApi.Http.{Client, Request, resolved_site}
use voucher_management_deskt.Json.{Python, Json}
use voucher_management_deskt.Workflows.Remote.{Reply-cases, answer}
use voucher_management_deskt.UnifiApi.Pages.{
  add_page, read_pages, Page, accept_page, read_items, fetch_page, list_vouchers,
}
use voucher_management_deskt.Models.{ApiVoucher}
use voucher_management_deskt.Prelude.{
  List, String, is_unique, ◌==◌, ◌≡◌, map, true, eq_iff, ◌++◌, length, ◌∷◌, ◌+◌, [], arith, refl,
  is_unique-snoc, ap, length-append, ℕ, some, suc, eqb_iff, zero, ◌⊎◌, inr, inl, ◌≤◌, is_nil, ◌<◌,
  ◌≢◌, none, strip,
}

abbrev pub remote_ids : List ApiVoucher → List String
remote_ids vs = map (λ (w : ApiVoucher). w.id) vs

pub remote_ids-append :
    (vs ws : List ApiVoucher) → remote_ids (vs ++ ws) ≡ remote_ids vs ++ remote_ids ws
remote_ids-append [] ws = refl
remote_ids-append (v ∷ vs) ws = ap (λ l. v.id ∷ l) (remote_ids-append vs ws)

pub add_page_unique :
    (known vs items : List ApiVoucher)
    → is_unique ◌==◌ (remote_ids known) ≡ true
    → add_page known vs ≡ answer items
    → (is_unique ◌==◌ (remote_ids items) ≡ true) × (length items ≡ length known + length vs)
add_page_unique known [] items u h = ground arith
add_page_unique known (v ∷ vs) items u h = ground (
  arith,
  add_page_unique (known ++ v ∷ []) vs items,
  is_unique-snoc ◌==◌ eq_iff v.id (remote_ids known) u,
  remote_ids-append known (v ∷ []),
  length-append known (v ∷ []),
)

pub add_page-length :
    (known vs items : List ApiVoucher)
    → add_page known vs ≡ answer items
    → length items ≡ length known + length vs
add_page-length known [] items h = ground arith
add_page-length known (v ∷ vs) items h =
    ground (arith, add_page-length (known ++ v ∷ []) vs items, length-append known (v ∷ []))

pub is_nil-length : {A : Type 0} (xs : List A) → (is_nil xs ≡ true) ⊎ (1 ≤ length xs)
is_nil-length [] = inl refl
is_nil-length (x ∷ xs) = inr (omega arith)

module _ (py : Python) where
  pub read_items-length :
      (xs : List Json) (vs : List ApiVoucher) → read_items py xs ≡ answer vs → length vs ≡ length xs
  unfolding read_items
  read_items-length [] vs h = ground arith
  read_items-length (x ∷ xs) vs h = elim (Reply-cases (read_items py xs)) [
    | inl (ws, e) ↦ ground (arith, read_items-length xs ws e)
    | inr (r, e) ↦ ground arith
  ]

  pub accept_page-length :
      (total : ℕ) (known : List ApiVoucher) (page : Page) (items : List ApiVoucher)
      → accept_page py total known page ≡ answer items
      → (length items ≡ length known + length page.data_items) × (page.total ≡ total)
  unfolding accept_page
  accept_page-length total known page items h = elim (Reply-cases (read_items py page.data_items)) [
    | inl (mapped, e) ↦ ground (
      arith,
      add_page-length known mapped items,
      read_items-length page.data_items mapped e,
      eqb_iff page.total total,
    )
    | inr (x, e) ↦ ground arith
  ]

  accept_page_unique :
      (total : ℕ) (known : List ApiVoucher) (page : Page) (items : List ApiVoucher)
      → is_unique ◌==◌ (remote_ids known) ≡ true
      → accept_page py total known page ≡ answer items
      → (is_unique ◌==◌ (remote_ids items) ≡ true) × (page.total ≡ total)
  unfolding accept_page
  accept_page_unique total known page items u h =
      elim (Reply-cases (read_items py page.data_items)) [
        | inl (mapped, e) ↦
            ground (arith, add_page_unique known mapped items u, eqb_iff page.total total)
        | inr (x, e) ↦ ground arith
      ]

  module _ (c : Client) (site : String) where
    read_pages_unique :
        (fuel total : ℕ) (known : List ApiVoucher) (offset : ℕ) (page : Page) (log : List Request)
        (items : List ApiVoucher)
        → is_unique ◌==◌ (remote_ids known) ≡ true
        → (read_pages py c site fuel total known offset page log).0 ≡ answer (some items)
        → (is_unique ◌==◌ (remote_ids items) ≡ true) × (length items ≡ total)
    unfolding read_pages
    read_pages_unique zero total known offset page log items u h = ground arith
    read_pages_unique (suc fuel) total known offset page log items u h =
        elim (Reply-cases (accept_page py total known page)) [
          | inr (x, e) ↦ ground arith
          | inl (known', e) ↦
              elim (Reply-cases (fetch_page py c site (offset + length page.data_items) log).0) [
                | inr (x, e') ↦ ground (
                  arith,
                  accept_page_unique total known page known' u e,
                  eqb_iff (length known') page.total,
                )
                | inl (next, e') ↦ ground (
                  arith,
                  accept_page_unique total known page known' u e,
                  eqb_iff (length known') page.total,
                  read_pages_unique fuel total known' (offset + length page.data_items) next
                      ((fetch_page py c site (offset + length page.data_items) log).1) items,
                )
              ]
        ]

    read_pages-ends :
        (fuel total : ℕ) (known : List ApiVoucher) (offset : ℕ) (page : Page) (log : List Request)
        → length known ≡ offset
        → offset ≤ total
        → total < offset + fuel
        → (read_pages py c site fuel total known offset page log).0 ≢ answer none
    unfolding read_pages
    read_pages-ends zero total known offset page log a b d h = omega arith
    read_pages-ends (suc fuel) total known offset page log a b d h =
        elim (Reply-cases (accept_page py total known page)) [
          | inr (x, e) ↦ ground arith
          | inl (known', e) ↦
              elim (Reply-cases (fetch_page py c site (offset + length page.data_items) log).0) [
                | inr (x, e') ↦ ground arith
                | inl (next, e') ↦ ground (
                  arith,
                  accept_page-length total known page known' e,
                  is_nil-length page.data_items,
                  read_pages-ends fuel total known' (offset + length page.data_items) next
                      ((fetch_page py c site (offset + length page.data_items) log).1),
                )
              ]
        ]

  module _ (c : Client) where
    -- An answered list has no id twice, and as many vouchers as the `totalCount` of its first page.
    pub list_vouchers_unique :
        (log : List Request) (vs : List ApiVoucher)
        → (list_vouchers py c log).0 ≡ answer (some vs)
        → (is_unique ◌==◌ (remote_ids vs) ≡ true)
          × ((page : Page) × ((fetch_page py c (strip c.site_id) 0 log).0 ≡ answer page)
              × (length vs ≡ page.total))
    unfolding list_vouchers resolved_site
    list_vouchers_unique log vs h =
        let site = strip c.site_id in
        elim (Reply-cases (fetch_page py c site 0 log).0) [
          | inr (x, e) ↦ ground arith
          | inl (page, e) ↦ ground (
            arith,
            read_pages_unique c site (suc page.total) page.total [] 0 page
                ((fetch_page py c site 0 log).1) vs refl,
          )
        ]

    -- The pages come to an end on the fuel that is given, whatever the controller answers.
    pub list_vouchers-ends : (log : List Request) → (list_vouchers py c log).0 ≢ answer none
    unfolding list_vouchers
    list_vouchers-ends log h = elim (Reply-cases (resolved_site c)) [
      | inr (x, e) ↦ ground arith
      | inl (site, e) ↦ elim (Reply-cases (fetch_page py c site 0 log).0) [
        | inr (x, e') ↦ ground arith
        | inl (page, e') ↦ ground (
          arith,
          read_pages-ends c site (suc page.total) page.total [] 0 page
              ((fetch_page py c site 0 log).1) (omega arith) (omega arith) (omega arith),
        )
      ]
    ]
