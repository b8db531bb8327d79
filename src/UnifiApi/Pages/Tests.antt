-- ===== src/UnifiApi/Pages/Tests.antt =====
-- Two vouchers served one to a page, and the theorems on them.
use voucher_management_deskt.Workflows.Remote.{answer}
use voucher_management_deskt.UnifiApi.Voucher.{voucher_from_json}
use voucher_management_deskt.UnifiApi.Pages.Answer.{list_vouchers-ends}
use voucher_management_deskt.Models.{ApiVoucher}
use voucher_management_deskt.UnifiApi.Pages.{read_items, list_vouchers, voucher_of_item}
use voucher_management_deskt.UnifiApi.Http.{
  Request, Client, Response, voucher_page, response, object, http_error,
}
use voucher_management_deskt.Prelude.{
  none, List, String, some, ℕ, [], ◌≡◌, ◌∷◌, ◌≢◌, arith, refl, take, drop, false, strip,
}
use voucher_management_deskt.UnifiApi.Pages.Served.{Serves, list_vouchers-Serves, envelope}
use voucher_management_deskt.UnifiApi.Voucher.{
  counters_of, times_of, limits_of, optional, timestamp, status_of,
}
use voucher_management_deskt.Json.{
  text, Python, Json, obj, field, num, pos, bool, end, find, int_of, stripped,
}

-- a Python whose texts are no numbers, and whose dates are all the same second
abbrev pub python : Python
python = record { int_of_text = λ s. none; str_of = λ v. ""; epoch_of = λ s. some 1 }

abbrev pub item : String → String → ℕ → Json
item id code used = obj (
    field "id" (text id) (
      field "createdAt" (text "2026-01-01T00:00:00Z") (
        field "name" (text "Ada") (
          field "code" (text code) (
            field "authorizedGuestCount" (num (pos used)) (
              field "authorizedGuestLimit" (num (pos 1))
                (field "expired" (bool false) (field "timeLimitMinutes" (num (pos 60)) end))))))))

abbrev pub stored : List Json
stored = item "a" "1234567890" 0 ∷ item "b" "0987654321" 2 ∷ []

abbrev read_voucher : String → String → ℕ → String → ApiVoucher
read_voucher id code used status = record {
  id = id;
  code = code;
  recipient = "Ada";
  duration_minutes = 60;
  create_time = 1;
  quota = 1;
  used = used;
  status = status;
  start_time = 0;
  end_time = 0;
  data_mb = none;
  down_kbps = none;
  up_kbps = none;
}

abbrev vouchers : List ApiVoucher
vouchers =
    read_voucher "a" "1234567890" 0 "VALID_MULTI"
    ∷ read_voucher "b" "0987654321" 2 "USED_MULTIPLE"
    ∷ []

abbrev answer_page : Request → Response
answer_page (voucher_page site offset limit) =
    response 200 (object (envelope offset 1 2 (take 1 (drop offset stored))))
answer_page _ = http_error 404

abbrev pub paging : Client
paging = record { api_key = "key"; site_id = " site "; transport = λ log r. answer_page r }

stored_lem : read_items python stored ≡ answer vouchers
unfolding read_items voucher_of_item voucher_from_json counters_of times_of limits_of optional
    timestamp status_of find int_of stripped strip
stored_lem = refl

paging-Serves : Serves paging (strip paging.site_id) 1 stored
unfolding Serves
paging-Serves log offset = refl

listed : (list_vouchers python paging []).0 ≡ answer (some vouchers)
unfolding strip
listed =
    list_vouchers-Serves python paging 1 stored vouchers [] refl refl (omega arith) paging-Serves
      stored_lem refl

list_vouchers-Serves_example : (list_vouchers python paging []).0 ≡ answer (some vouchers)
unfolding strip
list_vouchers-Serves_example =
    list_vouchers-Serves python paging 1 stored vouchers [] refl refl (omega arith) paging-Serves
      stored_lem refl

list_vouchers-ends_example : (list_vouchers python paging []).0 ≢ answer none
list_vouchers-ends_example = list_vouchers-ends python paging []
