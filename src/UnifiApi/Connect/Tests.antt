-- ===== src/UnifiApi/Connect/Tests.antt =====
-- A controller with one site.
use voucher_management_deskt.Prelude.{
  ◌≡◌, Option, List, some, strip, is_empty, [], false, ◌⊎◌, ◌∷◌, true,
}
use voucher_management_deskt.Workflows.Remote.{Reply, answer, RemoteError, fail}
use voucher_management_deskt.UnifiApi.Http.{
  Client, Request, Response, response, object, site_page, http_error, info_request,
}
use voucher_management_deskt.UnifiApi.Connect.{Session, connect, closed}
use voucher_management_deskt.Json.{text, field, end, obj}
use voucher_management_deskt.UnifiApi.Pages.Tests.{python}
use voucher_management_deskt.UnifiApi.Pages.Served.{envelope}
use voucher_management_deskt.UnifiApi.Connect.Sessions.{connect-closed}

abbrev answer_site : Request → Response
answer_site info_request = response 200 (object (field "applicationVersion" (text "9.1") end))
answer_site (site_page offset limit) =
    response 200 (object (envelope offset 200 1 (obj (field "id" (text "site-1") end) ∷ [])))
answer_site _ = http_error 404

abbrev one_site : Client
one_site = record { api_key = ""; site_id = ""; transport = λ log r. answer_site r }

abbrev outcome : Reply (Option Session) × List Request × Session
outcome = connect python one_site "" " key " closed []

connect-closed_example :
    ((s : Session) × (outcome.0 ≡ answer (some s))
      × (outcome.2 ≡ s)
      × (s.key ≡ strip " key ")
      × (is_empty s.key ≡ false)
      × (is_empty s.site_id ≡ false))
    ⊎ ((e : RemoteError) × (outcome.0 ≡ fail e)
        × ((outcome.2 ≡ closed) ⊎ ((is_empty (strip " key ") ≡ true) × (outcome.2 ≡ closed))))
connect-closed_example = connect-closed python one_site "" " key " closed []
