-- ===== src/History/Base.antt =====
-- What HistoryService keeps on disk, calls on it that may raise, and reading and appending the journal.
use voucher_management_deskt.Database.Action.{
  Result, Error, ok, err, history_error, damaged_journal, append_failed, Result-cases,
}
use voucher_management_deskt.Json.{Fields}
use voucher_management_deskt.Prelude.{
  String, List, Bool, Option, false, [], ℕ, ◌++◌, if◌then◌else◌, ◌∷◌, map, true, some, not, is_some,
  take, none, ◌≡◌, inl, arith, inr,
}
use voucher_management_deskt.Recovery.Marker.{Marker}

-- The parts of the standard library that the digests and the names of files come from.
pub record Platform : Type 0 where
  -- `hashlib.sha256(secret).hexdigest()[:16]`
  pub fingerprint : String → String
  -- `hmac.new(secret, message, hashlib.sha256).hexdigest()`
  pub hmac : String → String → String
  -- `Path(value).name`
  pub file_name : String → String
  -- `value.lower()`
  pub lower : String → String

-- What the file system and the key store refuse in a call, and what the call draws or reads from outside.
pub record Env : Type 0 where
  -- OSError or LockTimeout in `_append` after so many lines; `true` where the next one is torn
  pub append_stops : Option (ℕ × Bool)
  pub write_fails : Bool
  pub unlink_fails : Bool
  pub settings_fail : Bool
  pub key_fails : Bool
  -- `secrets.token_hex(32)`, and the tokens of single records
  pub new_secret : String
  pub token : ℕ → String
  -- `datetime.now(timezone.utc).isoformat(timespec="seconds")`
  pub now : String

-- a line of history.jsonl and what `json.loads` makes of it
pub data Line : Type 0 where
  blank damaged : Line
  row : Fields → Line

-- `unreadable` is a file that is not empty and cannot be read
pub data Journal : Type 0 where
  absent unreadable : Journal
  lines : List Line → Journal

pub record Disk : Type 0 where
  -- `history_key_fingerprint` of the settings; "" where there is none
  pub fingerprint : String
  -- what the key store returns; "" in place of None
  pub secret : String
  pub recovered_key : Bool
  pub journal : Journal
  -- pending_print_audit.json
  pub pending : Marker

infixl 5 ◌>>=◌
abbrev pub ◌>>=◌ : {A B : Type 0} → Result A → (A → Result B) → Result B
ok a >>= f = f a
err e >>= f = err e

abbrev pub guard : Bool → Error → Result (Unit {0})
guard c e = if c then ok tt else err e

abbrev pub Action : Type 0 → Type 0
Action A = Disk → Result A × Disk

abbrev pub continue : {A B : Type 0} → Result A → (A → Action B) → Action B
continue (ok a) f d = f a d
continue (err e) f d = (err e, d)

infixl 5 ◌>>>◌
-- the statement, and then the rest with what it returns
abbrev pub ◌>>>◌ : {A B : Type 0} → Action A → (A → Action B) → Action B
m >>> f = λ d. let (r, d') = m d in continue r f d'

-- A sequence that returns has returned from its first statement.
pub bind-ok :
    {A B : Type 0} (m : Action A) (f : A → Action B) (d : Disk) {b : B}
    → ((m >>> f) d).0 ≡ ok b
    → (a : A) × ((m d).0 ≡ ok a) × ((m >>> f) d ≡ f a (m d).1)
bind-ok m f d h = elim (Result-cases (m d).0) [
  | inl (a, e) ↦ (a, e, ground arith)
  | inr (x, e) ↦ absurd (ground arith)
]

-- a call that only reads
abbrev pub reads : {A : Type 0} → (Disk → Result A) → Action A
reads f d = (f d, d)

-- `_history_has_rows`
unfoldable pub history_has_rows : Journal → Bool
history_has_rows absent = false
history_has_rows (lines []) = false
history_has_rows _ = true

-- the rows before the first damaged line, and whether there is one
unfoldable pub read_lines : List Line → List Fields × Bool
read_lines [] = ([], false)
read_lines (blank ∷ ls) = read_lines ls
read_lines (damaged ∷ ls) = ([], true)
read_lines (row r ∷ ls) = let (rs, stopped) = read_lines ls in (r ∷ rs, stopped)

-- `_items`: the rows that it yields, and whether it raises after them
unfoldable pub items_of : Journal → List Fields × Bool
items_of absent = ([], false)
items_of unreadable = ([], true)
items_of (lines ls) = read_lines ls

unfoldable pub fold_rows : {S : Type 0} → (S → Fields → Result S) → S → List Fields → Result S
fold_rows step s [] = ok s
fold_rows step s (r ∷ rs) = step s r >>= λ s'. fold_rows step s' rs

-- `for item in self._items() or ():`, with the loop's variables as `S`
unfoldable pub for_items : {S : Type 0} → (S → Fields → Result S) → S → Journal → Result S
for_items step s j = fold_rows step s (items_of j).0 >>= λ s'.
    if (items_of j).1 then err (history_error damaged_journal) else ok s'

-- lines at the end of the file; what a torn line is glued to is damaged as well
unfoldable pub write_lines : List Line → Journal → Journal
write_lines new absent = lines new
write_lines new unreadable = unreadable
write_lines new (lines ls) = lines (ls ++ new)

-- the lines that reach the file; a line torn exactly before its newline is not modelled
unfoldable pub flushed : Option (ℕ × Bool) → List Fields → List Line
flushed none rs = map row rs
flushed (some (n, torn)) rs = map row (take n rs) ++ (if torn then damaged ∷ [] else [])

module _ (env : Env) where
  -- `_append`
  unfoldable pub append : List Fields → Action (Unit {0})
  append [] d = (ok tt, d)
  append (r ∷ rs) d = (
    guard (not (is_some env.append_stops)) (history_error append_failed),
    record d { journal = write_lines (flushed env.append_stops (r ∷ rs)) d.journal },
  )
