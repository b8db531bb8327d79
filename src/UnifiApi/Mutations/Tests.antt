-- ===== src/UnifiApi/Mutations/Tests.antt =====
-- Runs of the mutations on concrete controllers.
use voucher_management_deskt.UnifiApi.Pages.{read_items, voucher_of_item, is_inside, starts_with}
use voucher_management_deskt.UnifiApi.Mutations.Deletion.{IsRun, delete_vouchers-IsRun}
use voucher_management_deskt.UnifiApi.Mutations.Creation.{
  create_vouchers-uncertain, HasUnreadable, IsDocumented, create_vouchers-IsDocumented,
}
use voucher_management_deskt.Models.{ApiVoucher}
use voucher_management_deskt.Prelude.{
  if◌then◌else◌, none, strip, ◌∷◌, is_nil, List, some, [], ◌≡◌, length, ◌⊎◌, String, refl,
}
use voucher_management_deskt.UnifiApi.Pages.Tests.{python, item}
use voucher_management_deskt.UnifiApi.Mutations.{
  read_created_list, create_vouchers, delete_vouchers, checked_payload, delete_each, delete_one,
  read_created, payload_of, cleaned,
}
use voucher_management_deskt.UnifiApi.Http.{
  Client, response, Body, resolved_site, object, request, read_response, read_body, read_http_error,
  http_error, delete_request, CreatePayload, create_request,
}
use voucher_management_deskt.Workflows.Remote.{
  CreateParams, answer, fail, api_error, mutation_uncertain, other_exception,
}
use voucher_management_deskt.Json.{
  Json, field, null, arr, num, cons, pos, end, nil, find, int_of, Fields, text,
}

abbrev params : CreateParams
params = record {
  recipient = " Ada ";
  quantity = 1;
  expire_number = 2;
  expire_unit = 60;
  quota = 1;
  data_mb = none;
  down_mbps = some 10;
  up_mbps = none;
}

abbrev creating : Json → Client
creating v = record {
  api_key = "key";
  site_id = "site";
  transport = λ log r. response 201 (object (field "vouchers" (arr (cons v nil)) end));
}

create_vouchers-IsDocumented_example :
    (create_vouchers python (creating (item "a" "1234567890" 0)) params [] ≡ (fail api_error, []))
    ⊎ ((site : String) × (payload : CreatePayload) × ((create_vouchers python
            (creating (item "a" "1234567890" 0))
            params
            []).1
          ≡ create_request site payload ∷ [])
        × (checked_payload params ≡ answer payload)
        × IsDocumented payload)
create_vouchers-IsDocumented_example =
    create_vouchers-IsDocumented python (creating (item "a" "1234567890" 0)) params []

abbrev Certain : Client → Body → Type 0
Certain c body =
    ((vs : List ApiVoucher) × ((create_vouchers python c params []).0 ≡ answer vs)
      × (length vs ≡ 1))
    ⊎ ((create_vouchers python c params []).0 ≡ fail mutation_uncertain)
    ⊎ (((create_vouchers python c params []).0 ≡ fail other_exception)
        × ((fields : Fields) × (body ≡ object fields) × HasUnreadable fields))

create_vouchers-uncertain_example :
    Certain (creating null) (object (field "vouchers" (arr (cons null nil)) end))
unfolding checked_payload resolved_site strip
create_vouchers-uncertain_example =
    create_vouchers-uncertain python (creating null) params [] "site" (payload_of params)
      (object (field "vouchers" (arr (cons null nil)) end)) refl refl refl refl

-- HTTP 201 with an element that is null: the exception is not the one for an uncertain creation
created_null : (create_vouchers python (creating null) params []).0 ≡ fail other_exception
unfolding create_vouchers checked_payload resolved_site strip request read_response read_body
    read_created read_created_list read_items voucher_of_item find
created_null = refl

-- an element that is a text with every required name in it
created_text :
    (create_vouchers python
      (creating (text "id, createdAt, name, code, authorizedGuestCount, expired, timeLimitMinutes"))
      params
      []).0
    ≡ fail other_exception
unfolding create_vouchers checked_payload resolved_site strip request read_response read_body
    read_created read_created_list read_items voucher_of_item find is_inside starts_with
created_text = refl

abbrev deleting : Client
deleting = record {
  api_key = "key";
  site_id = "site";
  transport = λ log r.
      if is_nil log
      then response 200 (object (field "vouchersDeleted" (num (pos 1)) end))
      else http_error 404;
}

-- the second of three ids is gone
delete_vouchers-IsRun_example :
    (delete_vouchers python deleting ("a" ∷ " " ∷ "b" ∷ "c" ∷ []) [] ≡ (fail api_error, []))
    ⊎ IsRun python deleting
        (strip "site")
        []
        (cleaned ("a" ∷ " " ∷ "b" ∷ "c" ∷ []))
        (delete_vouchers python deleting ("a" ∷ " " ∷ "b" ∷ "c" ∷ []) []).0
        (delete_vouchers python deleting ("a" ∷ " " ∷ "b" ∷ "c" ∷ []) []).1
delete_vouchers-IsRun_example =
    delete_vouchers-IsRun python deleting ("a" ∷ " " ∷ "b" ∷ "c" ∷ []) []

deleted_two :
    delete_vouchers python deleting ("a" ∷ " " ∷ "b" ∷ "c" ∷ []) []
    ≡ (fail api_error, delete_request "site" "a" ∷ delete_request "site" "b" ∷ [])
unfolding delete_vouchers delete_each delete_one resolved_site strip request read_response read_body
    read_http_error find int_of
deleted_two = refl
