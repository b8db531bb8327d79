-- ===== src/UnifiApi/Connect.antt =====
-- `UniFiClient._list_sites` and `connect` of unifi_api.py. The loop over the sites runs on fuel, as that
-- over the vouchers. The fields of the client that `connect` sets are its state.
pub mod Sessions
mod Tests
use voucher_management_deskt.Workflows.Remote.{Reply, fail, answer, api_error, other_exception}
use voucher_management_deskt.Prelude.{
  ℕ, Option, List, String, some, none, suc, [], ◌∷◌, if◌then◌else◌, not, eqb, is_empty, find_by,
  length, any_by, ltb, ◌==◌, is_nil, ◌++◌, ◌||◌, ◌+◌, zero, strip,
}
use voucher_management_deskt.Json.{text, Python, Json, obj, find, stripped}
use voucher_management_deskt.UnifiApi.Pages.{Page, page_of}
use voucher_management_deskt.UnifiApi.Http.{
  ◌>>=◌, ◌>>◌, pure, lift, raise_if, request, Client, Http, site_page, Request, info_request,
}

pub record Site : Type 0 where
  -- `str(site.get("id", ""))`, and stripped
  pub raw_id : String
  pub id : String
  pub name : String

-- `_api_key`, `site_id`, `site_name` and `application_version`
pub record Session : Type 0 where
  pub key : String
  pub site_id : String
  pub site_name : String
  pub application_version : String

abbrev pub closed : Session
closed = record { key = ""; site_id = ""; site_name = ""; application_version = "" }

abbrev then_sites : Reply (List Site) → (List Site → Reply (List Site)) → Reply (List Site)
then_sites (answer sites) f = f sites
then_sites (fail e) f = fail e

-- the tests on one site
abbrev pub add_site : List Site → Reply Site → Reply (List Site)
add_site known (fail e) = fail e
add_site known (answer s) =
    if is_empty s.id
    then fail api_error
    else if any_by (λ (t : Site). t.id == s.id) known
    then fail api_error
    else answer (known ++ s ∷ [])

abbrev or_missing : Option Site → Reply Site
or_missing none = fail api_error
or_missing (some s) = answer s

-- the choice of the site; `preferred` is empty where none is configured. The sites are not empty.
pub selected_site : String → List Site → Reply Site
selected_site preferred [] = fail api_error
selected_site preferred (s ∷ sites) =
    if not (is_empty preferred)
    then or_missing (find_by (λ (t : Site). t.raw_id == preferred) (s ∷ sites))
    else if is_nil sites
    then answer s
    else fail api_error

module _ (py : Python) where
  -- `str(item.get(key, "")).strip()`
  abbrev text_or_empty : Option Json → String
  text_or_empty none = ""
  text_or_empty (some v) = stripped py v

  abbrev raw_text : Option Json → String
  raw_text none = ""
  raw_text (some (text s)) = s
  raw_text (some v) = py.str_of v

  pub site_of : Json → Reply Site
  site_of (obj fs) = answer (record {
    raw_id = raw_text (find "id" fs);
    id = text_or_empty (find "id" fs);
    name = text_or_empty (find "name" fs);
  })
  site_of _ = fail other_exception

  pub add_sites : List Site → List Json → Reply (List Site)
  add_sites known [] = answer known
  add_sites known (x ∷ xs) = then_sites (add_site known (site_of x)) (λ sites. add_sites sites xs)

  module _ (c : Client) where
    pub fetch_sites : ℕ → Http Page
    fetch_sites offset = do
      fields ← request c (site_page offset 200)
      lift (page_of py offset fields)

    pub read_sites : (fuel expected_total : ℕ) → List Site → ℕ → Page → Http (Option (List Site))
    read_sites zero expected_total known offset page = pure none
    read_sites (suc fuel) expected_total known offset page = do
      raise_if (not (eqb page.total expected_total)) api_error
      known' ← lift (add_sites known page.data_items)
      (if eqb (length known') page.total then pure (some known') else (do
        raise_if (ltb page.total (length known') || is_nil page.data_items) api_error
        next ← fetch_sites (offset + length page.data_items)
        read_sites fuel expected_total known' (offset + length page.data_items) next))

    -- `_list_sites`
    pub list_sites : Http (Option (List Site))
    list_sites = do page ← fetch_sites 0; read_sites (suc page.total) page.total [] 0 page

    abbrev raise_unless :
        Option (List Site) → (List Site → Http (Option Session)) → Http (Option Session)
    raise_unless none f = pure none
    raise_unless (some sites) f = f sites

    -- the `try` block, for a client that has the key
    pub open_session : String → Http (Option Session)
    open_session preferred = do
      info ← request c info_request
      raise_if (is_empty (text_or_empty (find "applicationVersion" info))) api_error
      found ← list_sites
      raise_unless found (λ sites. do
        site ← lift (selected_site preferred sites)
        raise_if (is_empty site.id) api_error
        pure (
            some (record {
              key = c.api_key;
              site_id = site.id;
              site_name = site.name;
              application_version = text_or_empty (find "applicationVersion" info);
            })))

  -- the `except` block
  abbrev settled :
      Reply (Option Session) × List Request → Reply (Option Session) × List Request × Session
  settled (answer (some s), log) = (answer (some s), log, s)
  settled (answer none, log) = (answer none, log, closed)
  settled (fail e, log) = (fail e, log, closed)

  -- the reply, the requests, and the fields of the client afterwards
  pub connect :
      Client
      → String
      → String
      → Session
      → List Request
      → Reply (Option Session) × List Request × Session
  connect c preferred api_key session log =
      if is_empty (strip api_key)
      then (fail api_error, log, session)
      else settled (open_session (record c { api_key = strip api_key; site_id = "" }) preferred log)
