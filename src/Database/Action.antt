-- ===== src/Database/Action.antt =====
-- A call on the database connection: the tables, and an exception. What was written before a raise
-- stays written, until `transaction` rolls it back.
use voucher_management_deskt.Prelude.{
  refl, ◌≡◌, Bool, true, false, List, [], ◌∷◌, arith, if◌then◌else◌, ◌⊎◌, inl, inr,
}
use voucher_management_deskt.Database.Rows.{Db}

-- what the program's `raise` statements say
pub data Reason : Type 0 where
  bad_nominality bad_print_state empty_selection missing_timestamp missing_operator : Reason
  not_in_local_history nominal_without_recipient contradicts_print_evidence : Reason
  invents_print controller_needs_not_printed : Reason
  missing_reason reason_too_long already_used print_blocks_deletion not_aligned : Reason
  needs_not_printed already_pending response_mismatch : Reason
  created_missing_from_snapshot missing_nominality absent_and_present row_disappeared : Reason
  bad_timestamp : Reason
  missing_audit_id bad_copies missing_code ids_mismatch unknown_voucher : Reason
  other_job_data other_voucher_data : Reason
  invalid_marker marker_exists invalid_intent no_pending_intent : Reason
  other_controller quantity_mismatch candidates_missing guard_failed bad_days : Reason
  no_retention_policy minimization_disabled : Reason
  damaged_journal append_failed journal_unverified : Reason
  identity_unavailable identity_unverified key_too_short : Reason
  no_local_key key_mismatch nothing_to_adopt wrong_confirmation fingerprint_present : Reason
  damaged_pending other_pending pending_present pending_changed pending_not_saved : Reason
  pending_not_cleared no_prepared already_submitted outcome_unknown : Reason
  job_incoherent job_reused unresolved_voucher ambiguous_link not_ascii : Reason
  bad_copy_count missing_namespace bad_timestamp_text bad_audit_id : Reason

pub data Error : Type 0 where
  value_error runtime_error history_error : Reason → Error
  integrity_error os_error type_error : Error

pub data Result {ℓ} (A : Type ℓ) : Type ℓ where
  ok : A → Result A
  err : Error → Result A

abbrev pub is_ok {ℓ} : {A : Type ℓ} → Result A → Bool
is_ok (ok a) = true
is_ok (err e) = false

abbrev pub Action : Type 0 → Type 0
Action A = Db → Result A × Db

module _ {A : Type 0} where
  abbrev pub pure : A → Action A
  pure a db = (ok a, db)

  abbrev pub raise : Error → Action A
  raise e db = (err e, db)

  -- a query
  abbrev pub gets : (Db → A) → Action A
  gets f db = (ok (f db), db)

-- a pure call that may raise
abbrev pub lift : {A : Type 0} → Result A → Action A
lift r db = (r, db)

abbrev pub raise_if : Bool → Error → Action (Unit {0})
raise_if c e db = (if c then err e else ok tt, db)

-- a statement that writes
abbrev pub modify : (Db → Db) → Action (Unit {0})
modify f db = (ok tt, f db)

abbrev pub continue : {A B : Type 0} → Result A → (A → Action B) → Action B
continue (ok a) f db = f a db
continue (err e) f db = (err e, db)

infixl 5 ◌>>=◌ ◌>>◌
abbrev pub ◌>>=◌ : {A B : Type 0} → Action A → (A → Action B) → Action B
◌>>=◌ m f db = let (r, db') = m db in continue r f db'

abbrev pub ◌>>◌ : {A B : Type 0} → Action A → Action B → Action B
m >> k = m >>= λ _. k

abbrev pub settle : {A : Type 0} → Db → Result A → Db → Result A × Db
settle before (ok a) after = (ok a, after)
settle before (err e) after = (err e, before)

-- `Database.transaction`: commit, or roll back to the tables at its start and raise again
unfoldable pub transaction : {A : Type 0} → Action A → Action A
transaction m db = let (r, db') = m db in settle db r db'

-- a loop over rows
unfoldable pub for_each : {A : Type 0} → List A → (A → Action (Unit {0})) → Action (Unit {0})
for_each [] f = pure tt
for_each (x ∷ xs) f = f x >> for_each xs f

-- An action that raises in a transaction has changed nothing.
pub transaction_atomic :
    {A : Type 0} (m : Action A) (db : Db) {e : Error}
    → (transaction m db).0 ≡ err e
    → (transaction m db).1 ≡ db
unfolding transaction
transaction_atomic m db h = ground arith

-- An action that returns in a transaction returns what it returns outside, and its writes stay.
pub transaction-ok :
    {A : Type 0} (m : Action A) (db : Db) {r : A}
    → (transaction m db).0 ≡ ok r
    → ((m db).0 ≡ ok r) × ((transaction m db).1 ≡ (m db).1)
unfolding transaction
transaction-ok m db h = ground arith

-- An action that returns has passed its guard.
pub guard-ok :
    {A : Type 0} (c : Bool) (e : Error) (m : Action A) (db : Db) {r : A}
    → ((raise_if c e >> m) db).0 ≡ ok r
    → (c ≡ false) × ((raise_if c e >> m) db ≡ m db)
guard-ok false e m db h = (refl, refl)
guard-ok true e m db h = cc

pub ok_injective : {A : Type 0} {a b : A} → ok a ≡ ok b → a ≡ b
ok_injective h = cc

pub Result-cases {ℓ} :
    {A : Type ℓ} (r : Result A) → ((a : A) × (r ≡ ok a)) ⊎ ((e : Error) × (r ≡ err e))
Result-cases (ok a) = inl (a, refl)
Result-cases (err e) = inr (e, refl)
