-- ===== src/Recovery/Intent/RoundTrip.antt =====
-- A marker that is written is read back (uncertain_create_recovery.py).
use voucher_management_deskt.Database.Action.{
  Error, err, ok, value_error, invalid_intent, runtime_error, marker_exists, os_error,
  invalid_marker,
}
use mathlib.Core.Option
use voucher_management_deskt.Prelude.{
  ◌||◌, Option, is_space, List, String, ℕ, ◌≡◌, all_by, some, is_clean, true, strip, Bool, any_by,
  is_unique, arith, ◌∷◌, ap, refl, none, ◌==◌, strip-solid, eq_iff, map-strip, false, [],
  from_keys_unique, ◌∙◌, eqb_refl, clean_ids, clean_ids-are_clean, ◌⊎◌, length, clean_ids-is_unique,
  strip-strip, codes, Bool-cases, inl, inr,
}
use voucher_management_deskt.Json.{ℤ, pos, negsuc, num, Python, arr, find, obj}
use voucher_management_deskt.Recovery.Marker.{
  holds, nonblank, ids_from, texts, text_from, int_from, Marker, missing_file, exists,
}
use voucher_management_deskt.Recovery.Intent.{
  all_hex, lower, is_digest, decode, optional_natural, optional_number, write_pending_create_intent,
  intent_invalid, load_pending_create_intent, normalized, PendingCreateIntent, intent_payload,
  IntentArguments, is_below,
}

hex-solid : (s : String) → all_hex s ≡ true → any_by is_space (codes s) ≡ false
unfolding all_hex is_space
hex-solid String.[] h = refl
hex-solid (String.◌∷◌ c s) h = ground (arith, hex-solid s)

lower-hex : (s : String) → all_hex s ≡ true → lower s ≡ s
unfolding all_hex lower
lower-hex String.[] h = refl
lower-hex (String.◌∷◌ c s) h = ground (arith, lower-hex s)

digest_kept : (s : String) → is_digest s ≡ true → lower (strip s) ≡ s
unfolding is_digest
digest_kept s h = ap lower (strip-solid s (hex-solid s (ground arith))) ∙ lower-hex s (ground arith)

nonblank-texts : (ids : List String) → all_by is_clean ids ≡ true → nonblank (texts ids) ≡ some ids
nonblank-texts [] h = refl
nonblank-texts (x ∷ ids) h = ground (arith, nonblank-texts ids, eq_iff (strip x) x)

ids_kept :
    (ids : List String)
    → all_by is_clean ids ≡ true
    → is_unique ◌==◌ ids ≡ true
    → ids_from (some (arr (texts ids))) ≡ some ids
unfolding ids_from
ids_kept ids h u = ground (
  arith,
  nonblank-texts ids h,
  map-strip ids h,
  from_keys_unique ◌==◌ ids u,
  eqb_refl (length ids),
)

abbrev natural : ℤ → ℕ
natural (pos n) = n
natural (negsuc n) = 0

int_kept :
    (least : ℕ) (z : ℤ)
    → is_below least z ≡ false
    → int_from least (some (num z)) ≡ some (natural z)
int_kept least (pos n) h = ground arith
int_kept least (negsuc n) h = absurd (ground arith)

-- a limit that is given, and below 0
abbrev pub is_negative : Option ℤ → Bool
is_negative none = false
is_negative (some z) = is_below 0 z

optional_kept :
    (o : Option ℤ)
    → is_negative o ≡ false
    → optional_natural (some (optional_number o)) ≡ some (Option.map natural o)
unfolding optional_natural
optional_kept none h = refl
optional_kept (some (pos n)) h = ground arith
optional_kept (some (negsuc n)) h = absurd (ground arith)

optional_refused :
    (o : Option ℤ) → is_negative o ≡ true → optional_natural (some (optional_number o)) ≡ none
unfolding optional_natural
optional_refused none h = absurd (ground arith)
optional_refused (some (pos n)) h = absurd (ground arith)
optional_refused (some (negsuc n)) h = ground arith

-- the intent that was written: the texts stripped, the ids without repetition, the numbers as they are
abbrev pub intended : IntentArguments → PendingCreateIntent
intended p = record {
  controller_id = natural p.controller_id;
  site_id = strip p.site_id;
  requested_at = strip p.requested_at;
  baseline_ids = clean_ids p.baseline_ids;
  quantity = natural p.quantity;
  recipient_digest = lower (strip p.recipient_digest);
  duration_minutes = natural p.duration_minutes;
  quota = natural p.quota;
  data_mb = Option.map natural p.data_mb;
  down_kbps = Option.map natural p.down_kbps;
  up_kbps = Option.map natural p.up_kbps;
  is_nominal = p.is_nominal;
}

abbrev pub has_negative_limit : IntentArguments → Bool
has_negative_limit p = is_negative p.data_mb || is_negative p.down_kbps || is_negative p.up_kbps

module _ (py : Python) where
  decode-intent_payload :
      (p : IntentArguments)
      → intent_invalid (normalized p) ≡ false
      → has_negative_limit p ≡ false
      → decode py (intent_payload (normalized p)) ≡ some (intended p)
  unfolding decode intent_invalid normalized find text_from
  decode-intent_payload p h n = ground (
    arith,
    ids_kept (clean_ids p.baseline_ids) (clean_ids-are_clean p.baseline_ids)
        (clean_ids-is_unique p.baseline_ids),
    strip-strip p.site_id,
    strip-strip p.requested_at,
    digest_kept (lower (strip p.recipient_digest)),
    int_kept 1 p.controller_id,
    int_kept 1 p.quantity,
    int_kept 1 p.duration_minutes,
    int_kept 0 p.quota,
    optional_kept p.data_mb,
    optional_kept p.down_kbps,
    optional_kept p.up_kbps,
  )

  decode_refused :
      (p : IntentArguments)
      → intent_invalid (normalized p) ≡ false
      → has_negative_limit p ≡ true
      → decode py (intent_payload (normalized p)) ≡ none
  unfolding decode intent_invalid normalized find text_from
  decode_refused p h n = ground (
    arith,
    ids_kept (clean_ids p.baseline_ids) (clean_ids-are_clean p.baseline_ids)
        (clean_ids-is_unique p.baseline_ids),
    int_kept 1 p.controller_id,
    int_kept 1 p.quantity,
    int_kept 1 p.duration_minutes,
    int_kept 0 p.quota,
    optional_kept p.data_mb,
    optional_kept p.down_kbps,
    optional_kept p.up_kbps,
    optional_refused p.data_mb,
    optional_refused p.down_kbps,
    optional_refused p.up_kbps,
  )

  -- What a load gives after a write: the intent; or, where a limit is negative, an error.
  abbrev pub IsReadBack : IntentArguments → Marker → Type 0
  IsReadBack p marker =
      ((has_negative_limit p ≡ false)
        × (load_pending_create_intent py marker ≡ ok (some (intended p))))
      ⊎ ((has_negative_limit p ≡ true)
          × (load_pending_create_intent py marker ≡ err (runtime_error invalid_marker)))

  read_back :
      (p : IntentArguments)
      → intent_invalid (normalized p) ≡ false
      → IsReadBack p (holds (obj (intent_payload (normalized p))))
  unfolding load_pending_create_intent find
  read_back p h = elim (Bool-cases (has_negative_limit p)) [
    | inl n ↦ inr (n, ground (arith, decode_refused p h n))
    | inr n ↦ inl (n, ground (arith, decode-intent_payload p h n))
  ]

  -- A write raises and leaves the marker as it was; or there was none, and what is then loaded is the
  -- intent that was written, with its texts stripped and its remote ids without repetition, if none of
  -- its three limits is negative; if one is, it was written, and the load refuses the marker.
  pub write-load_pending_create_intent :
      (io_fails : Bool) (p : IntentArguments) (marker : Marker)
      → ((e : Error) × (write_pending_create_intent io_fails p marker ≡ (err e, marker)))
        ⊎ ((marker ≡ missing_file)
            × (marker' : Marker) × (write_pending_create_intent io_fails p marker
                ≡ (ok tt, marker'))
            × IsReadBack p marker')
  unfolding write_pending_create_intent
  write-load_pending_create_intent io_fails p marker =
      elim (Bool-cases (intent_invalid (normalized p))) [
        | inl h ↦ inl (value_error invalid_intent, ground arith)
        | inr h ↦ elim (Bool-cases (exists marker)) [
          | inl e ↦ inl (runtime_error marker_exists, ground arith)
          | inr e ↦ elim (Bool-cases io_fails) [
            | inl f ↦ inl (os_error, ground arith)
            | inr f ↦ inr (
              ground arith,
              holds (obj (intent_payload (normalized p))),
              ground arith,
              read_back p h,
            )
          ]
        ]
      ]
