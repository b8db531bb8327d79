-- ===== src/Workflows/Remote.antt =====
-- The calls of workflows.py on the UniFi client. The controller is a parameter: what it answers may
-- depend on every call made so far, so the state of a run is the log of its calls.
use voucher_management_deskt.Models.{ApiVoucher}
use voucher_management_deskt.Prelude.{
  List, [], ◌∷◌, String, Bool, false, ℕ, ◌++◌, true, Option, ◌≡◌, ◌⊎◌, inl, inr, refl,
}

-- `params` of `create_vouchers_and_refresh`, without `is_nominal`
pub record CreateParams : Type 0 where
  pub recipient : String
  pub quantity : ℕ
  pub expire_number : ℕ
  pub expire_unit : ℕ
  pub quota : ℕ
  pub data_mb : Option ℕ
  pub down_mbps : Option ℕ
  pub up_mbps : Option ℕ

pub data Call : Type 0 where
  list_vouchers : Call
  get_voucher : String → Call
  create_vouchers : CreateParams → Call
  delete_vouchers : List String → Call

-- `UniFiApiError` with its subclasses that the workflows tell apart, and any other exception
pub data RemoteError : Type 0 where
  not_found mutation_uncertain api_error : RemoteError
  other_exception : RemoteError

-- `except UniFiApiError`
abbrev pub is_api_error : RemoteError → Bool
is_api_error other_exception = false
is_api_error _ = true

pub data Reply (A : Type 0) : Type 0 where
  answer : A → Reply A
  fail : RemoteError → Reply A

pub Reply-cases :
    {A : Type 0} (r : Reply A) → ((a : A) × (r ≡ answer a)) ⊎ ((e : RemoteError) × (r ≡ fail e))
Reply-cases (answer a) = inl (a, refl)
Reply-cases (fail e) = inr (e, refl)

pub record UniFi : Type 0 where
  pub on_list : List Call → Reply (List ApiVoucher)
  pub on_get : List Call → String → Reply ApiVoucher
  pub on_create : List Call → CreateParams → Reply (List ApiVoucher)
  pub on_delete : List Call → List String → Reply (Unit {0})

abbrev pub Remote : Type 0 → Type 0
Remote A = List Call → Reply A × List Call

abbrev pub pure : {A : Type 0} → A → Remote A
pure a log = (answer a, log)

abbrev pub raise : {A : Type 0} → RemoteError → Remote A
raise e log = (fail e, log)

abbrev pub continue : {A B : Type 0} → Reply A → (A → Remote B) → Remote B
continue (answer a) f log = f a log
continue (fail e) f log = (fail e, log)

infixl 5 ◌>>=◌
abbrev pub ◌>>=◌ : {A B : Type 0} → Remote A → (A → Remote B) → Remote B
◌>>=◌ m f log = let (r, log') = m log in continue r f log'

-- `try: ... except:` hands the reply, error or not, to the handler
abbrev pub attempt : {A B : Type 0} → Remote A → (Reply A → Remote B) → Remote B
attempt m f log = let (r, log') = m log in f r log'

-- a call is logged, and answered from the log before it
module _ (unifi : UniFi) where
  abbrev pub call_list : Remote (List ApiVoucher)
  call_list log = (unifi.on_list log, log ++ list_vouchers ∷ [])

  abbrev pub call_get : String → Remote ApiVoucher
  call_get u log = (unifi.on_get log u, log ++ get_voucher u ∷ [])

  abbrev pub call_create : CreateParams → Remote (List ApiVoucher)
  call_create p log = (unifi.on_create log p, log ++ create_vouchers p ∷ [])

  abbrev pub call_delete : List String → Remote (Unit {0})
  call_delete ids log = (unifi.on_delete log ids, log ++ delete_vouchers ids ∷ [])

abbrev pub is_create : Call → Bool
is_create (create_vouchers p) = true
is_create _ = false

abbrev pub is_delete : Call → Bool
is_delete (delete_vouchers ids) = true
is_delete _ = false
