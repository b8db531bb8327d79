-- ===== src/UnifiApi/Pages/Served.antt =====
-- `list_vouchers` of unifi_api.py against a controller that serves its list page by page.
use voucher_management_deskt.UnifiApi.Pages.Answer.{
  remote_ids, remote_ids-append, read_items-length, is_nil-length,
}
use voucher_management_deskt.Workflows.Remote.{Reply-cases, answer}
use voucher_management_deskt.Models.{ApiVoucher}
use voucher_management_deskt.UnifiApi.Http.{
  Client, Request, voucher_page, response, object, request, read_response, read_body, resolved_site,
}
use voucher_management_deskt.Prelude.{
  ℕ, List, String, ◌≡◌, ◌++◌, ◌∷◌, ap, length, [], take, refl, drop, is_unique, inr, ◌==◌, arith,
  ◌≤◌, inl, true, ◌+◌, ++-nil, ++-assoc, is_unique-middle, eq_iff, length-drop, is_empty,
  length-append, false, take-append-drop, ◌<◌, some, suc, zero, length-take, ◌∙◌,
  is_unique-append_left, eqb_refl, sym, drop-drop, drop-length-take, Bool-cases, eqb, eqb_iff,
  strip, length-zero, length-take-drop, length-take-is_nil,
}
use voucher_management_deskt.UnifiApi.Pages.{
  page_data, checked_page, natural_of, page_of, read_items, add_page, voucher_of_item, Page,
  read_pages, fetch_page, accept_page, list_vouchers,
}
use voucher_management_deskt.Json.{
  Python, Json, items, Items, Fields, nil, field, num, pos, cons, arr, end, int_of, find,
}

-- the elements of a JSON list
abbrev pub items_of : List Json → Items
items_of [] = nil
items_of (x ∷ xs) = cons x (items_of xs)

items-items_of : (xs : List Json) → items (items_of xs) ≡ xs
items-items_of [] = refl
items-items_of (x ∷ xs) = ap (λ l. x ∷ l) (items-items_of xs)

-- the documented envelope of one page of at most `size` elements
abbrev pub envelope : (offset size total : ℕ) → List Json → Fields
envelope offset size total xs = field "offset" (num (pos offset)) (
    field "limit" (num (pos size)) (
      field "count" (num (pos (length xs)))
        (field "totalCount" (num (pos total)) (field "data" (arr (items_of xs)) end))))

-- Every request for a page gets the elements of `stored` from its offset on, at most `size` of them.
unfoldable pub Serves : Client → String → ℕ → List Json → Type 0
Serves c site size stored =
    (log : List Request) (offset : ℕ)
    → c.transport log (voucher_page site offset 1000)
      ≡ response 200
          (object (envelope offset size (length stored) (take size (drop offset stored))))

module _ (py : Python) where
  page_of-envelope :
      (offset size total : ℕ) (xs : List Json)
      → 1 ≤ size
      → length xs ≤ size
      → offset + length xs ≤ total
      → page_of py offset (envelope offset size total xs)
        ≡ answer (record { data_items = xs; total = total })
  unfolding page_of page_data checked_page natural_of int_of find
  page_of-envelope offset size total xs a b d = ground (arith, items-items_of xs)

  read_items-append :
      (xs ys : List Json) (vs : List ApiVoucher)
      → read_items py (xs ++ ys) ≡ answer vs
      → (front : List ApiVoucher) × (back : List ApiVoucher) × (read_items py xs ≡ answer front)
        × (read_items py ys ≡ answer back)
        × (vs ≡ front ++ back)
  unfolding read_items
  read_items-append [] ys vs h = ([], vs, refl, h, refl)
  read_items-append (x ∷ xs) ys vs h = elim (Reply-cases (read_items py (xs ++ ys))) [
    | inr (r, e) ↦ ground arith
    | inl (ws, e) ↦ elim (Reply-cases (voucher_of_item py x)) [
      | inr (r, e') ↦ ground arith
      | inl (v, e') ↦
          (let (front, back, a, b, d) = read_items-append xs ys ws e in
            (v ∷ front, back, ground arith, b, ground arith))
    ]
  ]

add_page-new :
    (known vs : List ApiVoucher)
    → is_unique ◌==◌ (remote_ids (known ++ vs)) ≡ true
    → add_page known vs ≡ answer (known ++ vs)
add_page-new known [] u = ground (arith, ++-nil known)
add_page-new known (v ∷ vs) u = ground (
  arith,
  add_page-new (known ++ v ∷ []) vs,
  ++-assoc known (v ∷ []) vs,
  is_unique-middle ◌==◌ eq_iff v.id (remote_ids known) (remote_ids vs),
  remote_ids-append known (v ∷ vs),
)

-- one page of the whole list
abbrev page_at : ℕ → List Json → ℕ → Page
page_at size stored offset = record {
  data_items = take size (drop offset stored);
  total = length stored;
}

module _ (py : Python) (c : Client) (size : ℕ) (stored : List Json) where
  module _ (site : String) (keyed : is_empty c.api_key ≡ false) (some_size : 1 ≤ size)
      (serves : Serves c site size stored) where
    fetch_page-page_at :
        (offset : ℕ) (log : List Request)
        → offset ≤ length stored
        → (fetch_page py c site offset log).0 ≡ answer (page_at size stored offset)
    unfolding fetch_page request read_response read_body Serves
    fetch_page-page_at offset log h = ground (
      arith,
      serves log offset,
      page_of-envelope py offset size (length stored) (take size (drop offset stored)) some_size
          (length-take size (drop offset stored)),
      length-take-drop offset size stored,
    )

    -- the page at an offset is accepted, and the rest of the vouchers is behind it
    accept_page-page_at :
        (known ws : List ApiVoucher) (offset : ℕ)
        → read_items py (drop offset stored) ≡ answer ws
        → is_unique ◌==◌ (remote_ids (known ++ ws)) ≡ true
        → (front : List ApiVoucher) × (back : List ApiVoucher) × (accept_page py
              (length stored)
              known
              (page_at size stored offset)
            ≡ answer (known ++ front))
          × (length front ≡ length (take size (drop offset stored)))
          × (read_items py (drop (offset + length (take size (drop offset stored))) stored)
              ≡ answer back)
          × (ws ≡ front ++ back)
    unfolding accept_page
    accept_page-page_at known ws offset r u =
        let rest = drop offset stored in
        let (front, back, a, b, d) =
          read_items-append py (take size rest) (drop size rest) ws
            (ap (read_items py) (take-append-drop size rest) ∙ r) in
        let fresh =
          is_unique-append_left ◌==◌ (remote_ids (known ++ front)) (remote_ids back)
            (ground (arith, remote_ids-append (known ++ front) back, ++-assoc known front back)) in
        (
          front,
          back,
          ground (arith, add_page-new known front fresh, eqb_refl (length stored)),
          read_items-length py (take size rest) front a,
          ap (read_items py) (
                sym (
                  drop-drop offset (length (take size rest)) (offset + length (take size rest))
                    stored refl)
                ∙ drop-length-take size rest)
              ∙ b,
          d,
        )

    read_pages-page_at :
        (fuel : ℕ) (known ws : List ApiVoucher) (offset : ℕ) (log : List Request)
        → read_items py (drop offset stored) ≡ answer ws
        → is_unique ◌==◌ (remote_ids (known ++ ws)) ≡ true
        → length known ≡ offset
        → offset ≤ length stored
        → length stored < offset + fuel
        → (read_pages py c site fuel
            (length stored)
            known
            offset
            (page_at size stored offset)
            log).0
          ≡ answer (some (known ++ ws))
    unfolding read_pages
    read_pages-page_at zero known ws offset log r u l a b = ground arith
    read_pages-page_at (suc fuel) known ws offset log r u l a b =
        let (front, back, accepted, m, r', d) = accept_page-page_at known ws offset r u in
        let next = offset + length (take size (drop offset stored)) in
        let len = length-append known front in
        elim (Bool-cases (eqb (length (known ++ front)) (length stored))) [
          | inl done ↦
              (let nothing = length-zero back (
                  omega (
                    arith,
                    read_items-length py (drop next stored) back r',
                    length-drop next stored,
                    (eqb_iff (length (known ++ front)) (length stored)).0 done,
                  )) in
                ground (arith, ++-nil front))
          | inr more ↦ ground (
            arith,
            eqb_iff (length (known ++ front)) (length stored),
            fetch_page-page_at next log (length-take-drop offset size stored a),
            ++-assoc known front back,
            read_pages-page_at fuel (known ++ front) back next (fetch_page py c site next log).1 r',
            is_nil-length (take size (drop offset stored)),
            length-take-is_nil size (drop offset stored) some_size,
            length-drop offset stored,
            length-take-drop offset size stored a,
          )
        ]

  -- A connected client gets the whole list, in its order, from a controller that serves it in pages of
  -- any positive size, when every element can be read and no id is there twice.
  pub list_vouchers-Serves :
      (vs : List ApiVoucher) (log : List Request)
      → is_empty c.api_key ≡ false
      → is_empty (strip c.site_id) ≡ false
      → 1 ≤ size
      → Serves c (strip c.site_id) size stored
      → read_items py stored ≡ answer vs
      → is_unique ◌==◌ (remote_ids vs) ≡ true
      → (list_vouchers py c log).0 ≡ answer (some vs)
  unfolding list_vouchers resolved_site
  list_vouchers-Serves vs log keyed site some_size serves r u =
      let log' = (fetch_page py c (strip c.site_id) 0 log).1 in
      ground (
        arith,
        fetch_page-page_at (strip c.site_id) keyed some_size serves 0 log (omega arith),
        read_pages-page_at (strip c.site_id) keyed some_size serves (suc (length stored)) [] vs 0
            log' r u refl (omega arith) (omega arith),
      )
