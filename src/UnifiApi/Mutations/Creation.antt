-- ===== src/UnifiApi/Mutations/Creation.antt =====
-- What `create_vouchers` of unifi_api.py sends, and what becomes of the answer.
use voucher_management_deskt.UnifiApi.Voucher.{required}
use voucher_management_deskt.UnifiApi.Pages.{read_items, voucher_of_item, is_inside, is_element}
use voucher_management_deskt.UnifiApi.Pages.Answer.{read_items-length}
use voucher_management_deskt.Models.{ApiVoucher}
use voucher_management_deskt.Workflows.Remote.{
  Reply-cases, CreateParams, answer, fail, api_error, mutation_uncertain, other_exception,
  RemoteError, Reply,
}
use voucher_management_deskt.UnifiApi.Mutations.{
  read_created_list, checked_payload, payload_of, create_vouchers, read_created,
}
use voucher_management_deskt.Prelude.{
  ℕ, Option, is_empty, ◌≡◌, some, List, ◌≤◌, false, ◌≢◌, none, String, ◌⊎◌, ◌++◌, ◌∷◌, [], length,
  arith, inr, true, inl, Bool-cases, Bool, any_by, refl, eqb_iff, eqb, all_by,
}
use voucher_management_deskt.UnifiApi.Voucher.Errors.{voucher_from_json-FailsPlainly}
use voucher_management_deskt.UnifiApi.Http.{
  lift, continue, CreatePayload, Client, Request, request, read_response, Body, resolved_site,
  create_request, response, read_body, object, blank, invalid, not_an_object,
}
use voucher_management_deskt.Json.{
  text, Python, Fields, Json, Items, find, end, bool, arr, num, null, items, obj,
}

-- `lo <= n <= hi`, where the field is given
abbrev pub Between : ℕ → ℕ → Option ℕ → Type 0
Between lo hi none = Unit
Between lo hi (some n) = (lo ≤ n) × (n ≤ hi)

-- the ranges of the official API
pub record IsDocumented (p : CreatePayload) : Type 0 where
  pub some_name : is_empty p.name ≡ false
  pub some_vouchers : 1 ≤ p.count
  pub few_vouchers : p.count ≤ 50
  pub some_time : 1 ≤ p.time_limit_minutes
  pub little_time : p.time_limit_minutes ≤ 1000000
  pub some_guests : p.authorized_guest_limit ≢ some 0
  pub data_usage : Between 1 1048576 p.data_usage_limit_mbytes
  pub rx_rate : Between 1000 100000 p.rx_rate_limit_kbps
  pub tx_rate : Between 1000 100000 p.tx_rate_limit_kbps

checked_payload-IsDocumented :
    (p : CreateParams) (payload : CreatePayload)
    → checked_payload p ≡ answer payload
    → IsDocumented payload
unfolding checked_payload payload_of
checked_payload-IsDocumented p payload h = ground arith

fails_with-api_error :
    (p : CreateParams) (x : RemoteError) → checked_payload p ≡ fail x → x ≡ api_error
unfolding checked_payload
fails_with-api_error p x h = ground arith

resolved_site-api_error : (c : Client) (x : RemoteError) → resolved_site c ≡ fail x → x ≡ api_error
unfolding resolved_site
resolved_site-api_error c x h = ground arith

-- An element that is no object: `key not in item` raises TypeError on it, or it is a text that contains
-- every required name, or a list that holds every required name, and `item.get` raises AttributeError.
abbrev pub unreadable : Json → Bool
unreadable null = true
unreadable (bool b) = true
unreadable (num z) = true
unreadable (text s) = all_by (is_inside s) required
unreadable (arr xs) = all_by (is_element xs) required
unreadable (obj fs) = false

-- a list of created vouchers with such an element
abbrev pub HasUnreadable : Fields → Type 0
HasUnreadable fields =
    (xs : Items) × (find "vouchers" fields ≡ some (arr xs)) × (any_by unreadable (items xs) ≡ true)

module _ (py : Python) where
  voucher_of_item-fails :
      (v : Json) (x : RemoteError)
      → voucher_of_item py v ≡ fail x
      → (x ≡ api_error) ⊎ ((x ≡ other_exception) × (unreadable v ≡ true))
  unfolding voucher_of_item
  voucher_of_item-fails (obj fs) x h = inl (voucher_from_json-FailsPlainly py fs x h)
  voucher_of_item-fails (text s) x h = ground arith
  voucher_of_item-fails (arr xs) x h = ground arith
  voucher_of_item-fails (num z) x h = ground arith
  voucher_of_item-fails (bool b) x h = ground arith
  voucher_of_item-fails null x h = ground arith

  read_items-fails :
      (xs : List Json) (x : RemoteError)
      → read_items py xs ≡ fail x
      → (x ≡ api_error) ⊎ ((x ≡ other_exception) × (any_by unreadable xs ≡ true))
  unfolding read_items
  read_items-fails [] x h = ground arith
  read_items-fails (v ∷ vs) x h = elim (Reply-cases (voucher_of_item py v)) [
    | inr (y, e) ↦ ground (arith, voucher_of_item-fails v y e)
    | inl (a, e) ↦ elim (Reply-cases (read_items py vs)) [
      | inr (y, e') ↦ ground (arith, read_items-fails vs y e')
      | inl (b, e') ↦ ground arith
    ]
  ]

  read_created_list-length :
      (quantity : ℕ) (v : Option Json) (vs : List ApiVoucher)
      → read_created_list py quantity v ≡ answer vs
      → length vs ≡ quantity
  unfolding read_created_list
  read_created_list-length quantity (some (arr xs)) vs h =
      ground (arith, read_items-length py (items xs) vs, eqb_iff (length (items xs)) quantity)
  read_created_list-length quantity none vs h = ground arith
  read_created_list-length quantity (some null) vs h = ground arith
  read_created_list-length quantity (some (bool b)) vs h = ground arith
  read_created_list-length quantity (some (num b)) vs h = ground arith
  read_created_list-length quantity (some (text b)) vs h = ground arith
  read_created_list-length quantity (some (obj b)) vs h = ground arith

  read_created_list-fails :
      (quantity : ℕ) (v : Option Json) (x : RemoteError)
      → read_created_list py quantity v ≡ fail x
      → (x ≡ api_error)
        ⊎ ((x ≡ other_exception)
            × (xs : Items) × (v ≡ some (arr xs))
            × (any_by unreadable (items xs) ≡ true))
  unfolding read_created_list
  read_created_list-fails quantity (some (arr xs)) x h =
      elim (Reply-cases (read_items py (items xs))) [
        | inl (vs, e) ↦ ground arith
        | inr (y, e) ↦ elim (read_items-fails (items xs) y e) [
          | inl q ↦ inl (ground arith)
          | inr (q, u) ↦ elim (Bool-cases (eqb (length (items xs)) quantity)) [
            | inl l ↦ inr (ground arith, xs, refl, u)
            | inr l ↦ inl (ground arith)
          ]
        ]
      ]
  read_created_list-fails quantity none x h = ground arith
  read_created_list-fails quantity (some null) x h = ground arith
  read_created_list-fails quantity (some (bool b)) x h = ground arith
  read_created_list-fails quantity (some (num b)) x h = ground arith
  read_created_list-fails quantity (some (text b)) x h = ground arith
  read_created_list-fails quantity (some (obj b)) x h = ground arith

  read_created-cases :
      (quantity : ℕ) (fields : Fields)
      → ((vs : List ApiVoucher) × (read_created py quantity fields ≡ answer vs)
          × (length vs ≡ quantity))
        ⊎ (read_created py quantity fields ≡ fail mutation_uncertain)
        ⊎ ((read_created py quantity fields ≡ fail other_exception) × HasUnreadable fields)
  unfolding read_created
  read_created-cases quantity fields =
      elim (Reply-cases (read_created_list py quantity (find "vouchers" fields))) [
        | inl (vs, e) ↦
            inl (vs, ground arith, read_created_list-length quantity (find "vouchers" fields) vs e)
        | inr (x, e) ↦ ground (arith, read_created_list-fails quantity (find "vouchers" fields) x e)
      ]

read_created-end :
    (py : Python) (quantity : ℕ) → read_created py quantity end ≡ fail mutation_uncertain
unfolding read_created read_created_list find
read_created-end py quantity = refl

continue-lift :
    {A B : Type 0} (r : Reply A) (g : A → Reply B) (log : List Request)
    → (continue r (λ a. lift (g a)) log).1 ≡ log
continue-lift (answer a) g log = refl
continue-lift (fail e) g log = refl

module _ (py : Python) (c : Client) (p : CreateParams) (log : List Request) where
  -- A creation sends nothing and fails, or sends one request, whose payload is in the documented ranges.
  pub create_vouchers-IsDocumented :
      ((create_vouchers py c p log) ≡ (fail api_error, log))
      ⊎ ((site : String) × (payload : CreatePayload) × ((create_vouchers py c p log).1
            ≡ log ++ create_request site payload ∷ [])
          × (checked_payload p ≡ answer payload)
          × IsDocumented payload)
  unfolding create_vouchers request
  create_vouchers-IsDocumented = elim (Reply-cases (checked_payload p)) [
    | inr (x, e) ↦ inl (ground (arith, fails_with-api_error p x e))
    | inl (payload, e) ↦ elim (Reply-cases (resolved_site c)) [
      | inr (x, e') ↦ inl (ground (arith, resolved_site-api_error c x e'))
      | inl (site, e') ↦ elim (Bool-cases (is_empty c.api_key)) [
        | inl no_key ↦ inl (ground arith)
        | inr keyed ↦ inr (
          site,
          payload,
          ground (
            arith,
            continue-lift
                (read_response (create_request site payload)
                  (c.transport log (create_request site payload)))
                (read_created py p.quantity) (log ++ create_request site payload ∷ []),
          ),
          e,
          checked_payload-IsDocumented p payload e,
        )
      ]
    ]
  ]

  -- After a response with the expected status the creation answers as many vouchers as were asked for,
  -- or reports that it is uncertain; or it ends with another exception, and then the body was an object
  -- whose `vouchers` hold an element that is null, a truth value or a number, or a text or a list in which
  -- every required name is found.
  pub create_vouchers-uncertain :
      (site : String) (payload : CreatePayload) (body : Body)
      → checked_payload p ≡ answer payload
      → resolved_site c ≡ answer site
      → is_empty c.api_key ≡ false
      → c.transport log (create_request site payload) ≡ response 201 body
      → ((vs : List ApiVoucher) × ((create_vouchers py c p log).0 ≡ answer vs)
          × (length vs ≡ p.quantity))
        ⊎ ((create_vouchers py c p log).0 ≡ fail mutation_uncertain)
        ⊎ (((create_vouchers py c p log).0 ≡ fail other_exception)
            × ((fields : Fields) × (body ≡ object fields) × HasUnreadable fields))
  unfolding create_vouchers request read_response read_body
  create_vouchers-uncertain site payload blank a b d e =
      ground (arith, read_created-end py p.quantity)
  create_vouchers-uncertain site payload invalid a b d e = ground arith
  create_vouchers-uncertain site payload not_an_object a b d e = ground arith
  create_vouchers-uncertain site payload (object fields) a b d e =
      elim (read_created-cases py p.quantity fields) [
        | inl (vs, r, n) ↦ inl (vs, ground arith, n)
        | inr (inl r) ↦ inr (inl (ground arith))
        | inr (inr (r, u)) ↦ inr (inr (ground arith, (fields, refl, u)))
      ]
