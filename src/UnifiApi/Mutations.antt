-- ===== src/UnifiApi/Mutations.antt =====
-- `get_voucher`, `create_vouchers` and `delete_vouchers` of unifi_api.py.
pub mod Creation
pub mod Deletion
mod Tests
use voucher_management_deskt.UnifiApi.Voucher.{voucher_from_json}
use voucher_management_deskt.UnifiApi.Pages.{read_items}
use voucher_management_deskt.Models.{ApiVoucher}
use voucher_management_deskt.Workflows.Remote.{
  CreateParams, Reply, RemoteError, answer, fail, is_api_error, api_error, mutation_uncertain,
  not_found,
}
use voucher_management_deskt.Prelude.{
  ℕ, List, Option, String, some, Bool, ◌*◌, none, filter_by, strip, if◌then◌else◌, false, not, ltb,
  is_empty, eqb, suc, ◌∷◌, is_nil, map, true, ◌||◌, length, [],
}
use voucher_management_deskt.Json.{Python, Fields, Json, find, items, int_of, arr, ℤ, pos}
use voucher_management_deskt.UnifiApi.Http.{
  ◌>>=◌, ◌>>◌, Client, Http, CreatePayload, lift, raise_if, request, pure, delete_request, raise,
  resolved_site, attempt, create_request, one_voucher,
}

-- the guards of `create_vouchers`, in their order, and the payload
abbrev pub limit_invalid : Option ℕ → ℕ → Bool
limit_invalid none most = false
limit_invalid (some n) most = ltb n 1 || ltb most n

abbrev pub duration_of : CreateParams → ℕ
duration_of p = p.expire_number * p.expire_unit

-- `expire_unit not in (1, 60, 1440)`
abbrev unit_invalid : ℕ → Bool
unit_invalid u = not (eqb u 1 || eqb u 60 || eqb u 1440)

abbrev kbps : Option ℕ → Option ℕ
kbps none = none
kbps (some n) = some (n * 1000)

unfoldable pub payload_of : CreateParams → CreatePayload
payload_of p = record {
  count = p.quantity;
  name = strip p.recipient;
  time_limit_minutes = duration_of p;
  authorized_guest_limit = (if ltb 0 p.quota then some p.quota else none);
  data_usage_limit_mbytes = p.data_mb;
  rx_rate_limit_kbps = kbps p.down_mbps;
  tx_rate_limit_kbps = kbps p.up_mbps;
}

-- A negative quota is no value of the parameters here.
unfoldable pub checked_payload : CreateParams → Reply CreatePayload
unfolding payload_of
checked_payload p =
    if is_empty (strip p.recipient)
    then fail api_error
    else if ltb p.quantity 1 || ltb 50 p.quantity
    then fail api_error
    else if unit_invalid p.expire_unit || ltb (duration_of p) 1 || ltb 1000000 (duration_of p)
    then fail api_error
    else if limit_invalid p.data_mb 1048576
    then fail api_error
    else if limit_invalid p.down_mbps 100
    then fail api_error
    else if limit_invalid p.up_mbps 100
    then fail api_error
    else answer (payload_of p)

-- `except UniFiApiError` around the reading of a body that came with 201
abbrev pub or_uncertain : {A : Type 0} → Reply A → Reply A
or_uncertain (answer a) = answer a
or_uncertain (fail e) = fail (if is_api_error e then mutation_uncertain else e)

-- an error after `deleted` confirmed deletions
abbrev after_deleted : ℕ → RemoteError → RemoteError
after_deleted deleted not_found = if ltb 0 deleted then api_error else not_found
after_deleted deleted e = e

-- the reply to one DELETE, with the deletions that follow
abbrev after_one : Http (Unit {0}) → ℕ → Reply (Unit {0}) → Http (Unit {0})
after_one rest deleted (answer a) = rest
after_one rest deleted (fail e) = raise (after_deleted deleted e)

abbrev is_positive : Option ℤ → Bool
is_positive (some (pos (suc n))) = true
is_positive _ = false

-- `[voucher_id.strip() for voucher_id in voucher_ids if voucher_id.strip()]`
abbrev pub cleaned : List String → List String
cleaned voucher_ids = filter_by (λ s. not (is_empty s)) (map strip voucher_ids)

module _ (py : Python) where
  read_created_list : ℕ → Option Json → Reply (List ApiVoucher)
  read_created_list quantity (some (arr xs)) =
      if not (eqb (length (items xs)) quantity) then fail api_error else read_items py (items xs)
  read_created_list quantity _ = fail api_error

  pub read_created : ℕ → Fields → Reply (List ApiVoucher)
  unfolding read_created_list
  read_created quantity fields = or_uncertain (read_created_list quantity (find "vouchers" fields))

  -- `int(result["vouchersDeleted"])`, and that it is positive
  abbrev pub deletion_confirmed : Option Json → Bool
  deletion_confirmed none = false
  deletion_confirmed (some v) = is_positive (int_of py v)

  module _ (c : Client) where
    pub get_voucher : String → Http ApiVoucher
    get_voucher voucher_id = do
      raise_if (is_empty (strip voucher_id)) api_error
      site ← lift (resolved_site c)
      fields ← request c (one_voucher site (strip voucher_id))
      lift (voucher_from_json py fields)

    pub create_vouchers : CreateParams → Http (List ApiVoucher)
    create_vouchers p = do
      payload ← lift (checked_payload p)
      site ← lift (resolved_site c)
      fields ← request c (create_request site payload)
      lift (read_created p.quantity fields)

    pub delete_one : String → String → Http (Unit {0})
    delete_one site voucher_id = do
      fields ← request c (delete_request site voucher_id)
      raise_if (not (deletion_confirmed (find "vouchersDeleted" fields))) mutation_uncertain

    pub delete_each : String → ℕ → List String → Http (Unit {0})
    delete_each site deleted [] = pure tt
    delete_each site deleted (u ∷ us) =
        attempt (delete_one site u) (after_one (delete_each site (suc deleted) us) deleted)

    pub delete_vouchers : List String → Http (Unit {0})
    delete_vouchers voucher_ids = do
      raise_if (is_nil (cleaned voucher_ids)) api_error
      site ← lift (resolved_site c)
      delete_each site 0 (cleaned voucher_ids)
