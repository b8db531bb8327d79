-- ===== src/UnifiApi/Pages.antt =====
-- `UniFiClient._page` and `list_vouchers` of unifi_api.py: the pages of the controller's list, each
-- checked before it is used. `seen_ids` is the set of the ids of `known`, the source's `items`. The loop runs on fuel: the
-- `totalCount` of the first page, and `none` is its end.
pub mod Answer
pub mod Served
pub mod Tests
use Prim.Native.Char.{code}
use voucher_management_deskt.Workflows.Remote.{Reply, fail, answer, api_error, other_exception}
use voucher_management_deskt.Prelude.{
  ℕ, Option, List, String, if◌then◌else◌, ◌∷◌, suc, some, none, any_by, not, eqb, [], ◌++◌, length,
  is_some, elem, ◌==◌, ltb, map, ◌+◌, ◌||◌, is_nil, zero, Bool, all_by, is_empty, false, true, ◌&&◌,
}
use voucher_management_deskt.Json.{
  Python, Json, Fields, find, int_of, items, ℤ, pos, arr, obj, text, Items,
}
use voucher_management_deskt.UnifiApi.Http.{
  Client, Http, request, resolved_site, ◌>>=◌, ◌>>◌, pure, lift, raise_if, voucher_page,
}
use voucher_management_deskt.UnifiApi.Voucher.{voucher_from_json, required}
use voucher_management_deskt.Models.{ApiVoucher}

pub record Page : Type 0 where
  pub data_items : List Json
  pub total : ℕ

abbrev pub page_keys : List String
page_keys = "data" ∷ "count" ∷ "totalCount" ∷ "offset" ∷ "limit" ∷ []

-- an integer that is not negative: the other two cases fail alike
natural_of : Option ℤ → Option ℕ
natural_of (some (pos n)) = some n
natural_of _ = none

checked_page : ℕ → List Json → Option ℕ → Option ℕ → Option ℕ → Option ℕ → Reply Page
checked_page expected xs (some count) (some total) (some offset) (some limit) =
    if eqb limit 0
    then fail api_error
    else if not (eqb count (length xs))
    then fail api_error
    else if ltb limit count
    then fail api_error
    else if ltb total (offset + count)
    then fail api_error
    else if not (eqb offset expected)
    then fail api_error
    else answer (record { data_items = xs; total = total })
checked_page expected xs _ _ _ _ = fail api_error

abbrev pub add_page : List ApiVoucher → List ApiVoucher → Reply (List ApiVoucher)
add_page known [] = answer known
add_page known (v ∷ vs) =
    let rest = add_page (known ++ v ∷ []) vs in
    if elem ◌==◌ v.id (map (λ (w : ApiVoucher). w.id) known) then fail api_error else rest

-- a list of calls that may raise: the first that does ends it
abbrev prepend : {A : Type 0} → Reply A → Reply (List A) → Reply (List A)
prepend (fail e) rest = fail e
prepend (answer a) (fail e) = fail e
prepend (answer a) (answer rest) = answer (a ∷ rest)

-- `key in text`
unfoldable pub starts_with : String → String → Bool
starts_with String.[] key = is_empty key
starts_with (String.◌∷◌ d s) String.[] = true
starts_with (String.◌∷◌ d s) (String.◌∷◌ c key) = eqb (code c) (code d) && starts_with s key

unfoldable pub is_inside : String → String → Bool
unfolding starts_with
is_inside String.[] key = is_empty key
is_inside (String.◌∷◌ c s) key = starts_with (String.◌∷◌ c s) key || is_inside s key

abbrev is_text_of : String → Json → Bool
is_text_of key (text s) = s == key
is_text_of key _ = false

-- `key in values`, for a list
abbrev pub is_element : Items → String → Bool
is_element xs key = any_by (is_text_of key) (items xs)

abbrev pub add_mapped : List ApiVoucher → Reply (List ApiVoucher) → Reply (List ApiVoucher)
add_mapped known (fail e) = fail e
add_mapped known (answer mapped) = add_page known mapped

module _ (py : Python) where
  abbrev int_found : Option Json → Option ℤ
  int_found none = none
  int_found (some v) = int_of py v

  abbrev natural_at : String → Fields → Option ℕ
  natural_at k fs = natural_of (int_found (find k fs))

  page_data : ℕ → Fields → Option Json → Reply Page
  unfolding checked_page natural_of
  page_data expected fs (some (arr xs)) =
      checked_page expected (items xs) (natural_at "count" fs) (natural_at "totalCount" fs)
        (natural_at "offset" fs) (natural_at "limit" fs)
  page_data expected fs _ = fail api_error

  -- `_page(result, expected_offset=expected)`
  pub page_of : ℕ → Fields → Reply Page
  unfolding page_data
  page_of expected fs =
      if any_by (λ k. not (is_some (find k fs))) page_keys
      then fail api_error
      else page_data expected fs (find "data" fs)

  -- One item. `key not in item` looks for a text in a text, and for an element in a list; where every
  -- required name is found, `item.get` raises AttributeError. On the other items it raises TypeError.
  unfoldable pub voucher_of_item : Json → Reply ApiVoucher
  voucher_of_item (obj fs) = voucher_from_json py fs
  voucher_of_item (text s) =
      if all_by (is_inside s) required then fail other_exception else fail api_error
  voucher_of_item (arr xs) =
      if all_by (is_element xs) required then fail other_exception else fail api_error
  voucher_of_item _ = fail other_exception

  -- `[self._voucher_from_json(item) for item in page]`
  unfoldable pub read_items : List Json → Reply (List ApiVoucher)
  read_items [] = answer []
  read_items (x ∷ xs) = prepend (voucher_of_item x) (read_items xs)

  -- the page with the vouchers of the pages before it
  pub accept_page : ℕ → List ApiVoucher → Page → Reply (List ApiVoucher)
  accept_page expected_total known page =
      if not (eqb page.total expected_total)
      then fail api_error
      else add_mapped known (read_items page.data_items)

  module _ (c : Client) (site : String) where
    pub fetch_page : ℕ → Http Page
    fetch_page offset = do
      fields ← request c (voucher_page site offset 1000)
      lift (page_of offset fields)

    pub read_pages :
        (fuel expected_total : ℕ) → List ApiVoucher → ℕ → Page → Http (Option (List ApiVoucher))
    read_pages zero expected_total known offset page = pure none
    read_pages (suc fuel) expected_total known offset page = do
      known' ← lift (accept_page expected_total known page)
      (if eqb (length known') page.total then pure (some known') else (do
        raise_if (ltb page.total (length known') || is_nil page.data_items) api_error
        next ← fetch_page (offset + length page.data_items)
        read_pages fuel expected_total known' (offset + length page.data_items) next))

  pub list_vouchers : Client → Http (Option (List ApiVoucher))
  list_vouchers c = do
    site ← lift (resolved_site c)
    page ← fetch_page c site 0
    read_pages c site (suc page.total) page.total [] 0 page
