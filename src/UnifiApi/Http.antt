-- ===== src/UnifiApi/Http.antt =====
-- `UniFiClient._request` of unifi_api.py: what is made of a response. The transport is a parameter: it
-- answers each request from the log of all requests before it.
use voucher_management_deskt.Json.{Fields, end}
use voucher_management_deskt.Prelude.{
  List, ℕ, Bool, String, Option, if◌then◌else◌, true, false, is_empty, strip, eqb, ◌++◌, ◌||◌, ◌∷◌,
  [], ◌&&◌, leb,
}
use voucher_management_deskt.Workflows.Remote.{
  Reply, answer, RemoteError, fail, mutation_uncertain, api_error, not_found,
}

-- the fields of the payload of a creation
pub record CreatePayload : Type 0 where
  pub count : ℕ
  pub name : String
  pub time_limit_minutes : ℕ
  pub authorized_guest_limit : Option ℕ
  pub data_usage_limit_mbytes : Option ℕ
  pub rx_rate_limit_kbps : Option ℕ
  pub tx_rate_limit_kbps : Option ℕ

-- the paths that are asked for, with the site; `quote` is injective, so it is left out
pub data Request : Type 0 where
  info_request : Request
  site_page : (offset limit : ℕ) → Request
  voucher_page : String → (offset limit : ℕ) → Request
  one_voucher : String → String → Request
  create_request : String → CreatePayload → Request
  delete_request : String → String → Request

abbrev pub is_mutating : Request → Bool
is_mutating (create_request s p) = true
is_mutating (delete_request s u) = true
is_mutating _ = false

-- `expected` of the callers
abbrev pub expected_status : Request → ℕ
expected_status (create_request s p) = 201
expected_status _ = 200

-- the caller gives `not_found_error=UniFiVoucherNotFound`
abbrev pub has_not_found_error : Request → Bool
has_not_found_error (one_voucher s u) = true
has_not_found_error _ = false

-- the text of a response, as `json.loads` reads it
pub data Body : Type 0 where
  blank invalid not_an_object : Body
  object : Fields → Body

-- what `opener.open` does
pub data Response : Type 0 where
  response : ℕ → Body → Response
  http_error : ℕ → Response
  certificate_changed certificate_untrusted unreachable : Response

abbrev uncertain_if : {A : Type 0} → Bool → Reply A
uncertain_if mutating = fail (if mutating then mutation_uncertain else api_error)

unfoldable pub read_body : Bool → Body → Reply Fields
read_body mutating blank = answer end
read_body mutating invalid = uncertain_if mutating
read_body mutating not_an_object = uncertain_if mutating
read_body mutating (object fields) = answer fields

unfoldable pub read_http_error : Request → ℕ → Reply Fields
read_http_error r code =
    if eqb code 401 || eqb code 403
    then fail api_error
    else if eqb code 404
    then fail (if has_not_found_error r then not_found else api_error)
    else if is_mutating r && (eqb code 408 || leb 500 code)
    then fail mutation_uncertain
    else fail api_error

unfoldable pub read_response : Request → Response → Reply Fields
unfolding read_body read_http_error
read_response r (response status body) =
    if eqb status (expected_status r)
    then read_body (is_mutating r) body
    else uncertain_if (is_mutating r)
read_response r (http_error code) = read_http_error r code
read_response r certificate_changed = fail api_error
read_response r certificate_untrusted = fail api_error
read_response r unreachable = uncertain_if (is_mutating r)

-- the client's fields that the operations read, and the transport
pub record Client : Type 0 where
  pub api_key : String
  pub site_id : String
  pub transport : List Request → Request → Response

abbrev pub Http : Type 0 → Type 0
Http A = List Request → Reply A × List Request

abbrev pub pure : {A : Type 0} → A → Http A
pure a log = (answer a, log)

abbrev pub raise : {A : Type 0} → RemoteError → Http A
raise e log = (fail e, log)

-- a pure call that may raise
abbrev pub lift : {A : Type 0} → Reply A → Http A
lift r log = (r, log)

abbrev pub raise_if : Bool → RemoteError → Http (Unit {0})
raise_if c e log = (if c then fail e else answer tt, log)

abbrev pub continue : {A B : Type 0} → Reply A → (A → Http B) → Http B
continue (answer a) f log = f a log
continue (fail e) f log = (fail e, log)

infixl 5 ◌>>=◌ ◌>>◌
abbrev pub ◌>>=◌ : {A B : Type 0} → Http A → (A → Http B) → Http B
◌>>=◌ m f log = let (r, log') = m log in continue r f log'

abbrev pub ◌>>◌ : {A B : Type 0} → Http A → Http B → Http B
m >> k = m >>= λ _. k

-- `except` hands the reply to a handler
abbrev pub attempt : {A B : Type 0} → Http A → (Reply A → Http B) → Http B
attempt m f log = let (r, log') = m log in f r log'

-- A request that is sent is logged.
unfoldable pub request : Client → Request → Http Fields
unfolding read_response
request c r log =
    if is_empty c.api_key
    then (fail api_error, log)
    else (read_response r (c.transport log r), log ++ r ∷ [])

-- `_resolved_site()`, with no argument
unfoldable pub resolved_site : Client → Reply String
resolved_site c = if is_empty (strip c.site_id) then fail api_error else answer (strip c.site_id)
