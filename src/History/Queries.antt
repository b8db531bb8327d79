-- ===== src/History/Queries.antt =====
-- history.py: `find_duplicates`, `find_duplicates_for_batch`, `generated_output_names`,
-- `voucher_links_for_output`, `codes_for_output` and `record_batch`.
use voucher_management_deskt.Database.Action.{Result, ok, type_error}
use voucher_management_deskt.Prelude.{
  String, [], List, Bool, Option, ◌&&◌, if◌then◌else◌, strip, ◌==◌, is_empty, ◌∷◌, not, none, some,
  ◌||◌, ◌++◌, elem,
}
use voucher_management_deskt.Prelude.Dicts.{Dict, put, get}
use voucher_management_deskt.Json.{Json, Fields, Python, find, text}
use voucher_management_deskt.History.Base.{
  Platform, Env, Action, ◌>>>◌, ◌>>=◌, guard, reads, for_items,
}
use voucher_management_deskt.History.Identity.{usable_secret, digest, stable_digest}
use voucher_management_deskt.History.Values.{text_or_empty, event_of, is_text, is_hashable}
use voucher_management_deskt.Workflows.Printing.{VoucherBatch, VoucherRecord}

pub record DuplicateHit : Type 0 where
  pub digest : Json
  pub recipient : Json
  pub timestamp : Json
  pub output_file : Json

-- `item.get(key, "")`
unfoldable pub get_or_empty : String → Fields → Json
get_or_empty key item = elim (find key item) [ none ↦ text "" | some v ↦ v ]

-- `targets.get(value)` with texts as keys
unfoldable pub get_json {ℓ} : {V : Type ℓ} → Json → Dict V → Option V
get_json (text s) targets = get s targets
get_json _ targets = none

unfoldable pub is_generated : Fields → Bool
is_generated item = is_text "generate" (event_of item)

-- `{digest(code): code for code in codes}`
unfoldable pub code_targets : Platform → String → List String → Dict String → Result (Dict String)
code_targets os secret [] t = ok t
code_targets os secret (c ∷ cs) t =
    digest os c secret >>= λ d. code_targets os secret cs (put d c t)

-- the body of the loop of `find_duplicates`
unfoldable pub duplicate_step :
    Dict String → Dict DuplicateHit → Fields → Result (Dict DuplicateHit)
duplicate_step targets hits item =
    let id = get_or_empty "voucher_id" item in
    if not (is_generated item)
    then ok hits
    else guard (is_hashable (some id)) type_error >>= λ _. ok (elim (get_json id targets) [
      | none ↦ hits
      | some code ↦
          put code
            (record {
              digest = id;
              recipient = get_or_empty "recipient" item;
              timestamp = get_or_empty "timestamp" item;
              output_file = get_or_empty "output_file" item;
            })
            hits
    ])

-- the two dictionaries of `find_duplicates_for_batch`
pub record BatchTargets : Type 0 where
  pub ref_targets : Dict String
  pub code_targets : Dict String

unfoldable pub add_voucher :
    Platform → String → VoucherBatch → BatchTargets → VoucherRecord → Result BatchTargets
add_voucher os secret batch t v =
    let code = strip v.code in
    let stable = stable_digest os batch.site_id v.unifi_id secret in
    if is_empty code
    then ok t
    else digest os code secret >>= λ d. ok (record t {
      code_targets = put d code t.code_targets;
      ref_targets = if is_empty stable then t.ref_targets else put stable code t.ref_targets;
    })

unfoldable pub batch_targets :
    Platform → String → VoucherBatch → BatchTargets → List VoucherRecord → Result BatchTargets
batch_targets os secret batch t [] = ok t
batch_targets os secret batch t (v ∷ vs) =
    add_voucher os secret batch t v >>= λ t'. batch_targets os secret batch t' vs

module _ (py : Python) where
  -- the digest of a row, and the code that it stands for; a row with a `voucher_ref` stands for no
  -- code by its `voucher_id`
  unfoldable pub matched_code : BatchTargets → Fields → String × Option String
  matched_code t item =
      let stable = text_or_empty py (find "voucher_ref" item) in
      let legacy = text_or_empty py (find "voucher_id" item) in
      if is_empty stable
      then (legacy, get legacy t.code_targets)
      else (stable, get stable t.ref_targets)

  unfoldable pub batch_step : BatchTargets → Dict DuplicateHit → Fields → Result (Dict DuplicateHit)
  batch_step t hits item =
      let (d, found) = matched_code t item in
      if not (is_generated item)
      then ok hits
      else ok (elim found [
        | none ↦ hits
        | some code ↦
            put code
              (record {
                digest = text d;
                recipient = text (text_or_empty py (find "recipient" item));
                timestamp = text (text_or_empty py (find "timestamp" item));
                output_file = text (text_or_empty py (find "output_file" item));
              })
              hits
      ])

  module _ (os : Platform) where
    -- the row is a generated document of that name
    unfoldable pub is_output : String → Fields → Bool
    is_output name item =
        is_generated item && os.file_name (text_or_empty py (find "output_file" item)) == name

    -- the body of the loop of `generated_output_names`; a set, in the order of first occurrence
    unfoldable pub name_step : List String → Fields → Result (List String)
    name_step names item =
        let value = strip (text_or_empty py (find "output_file" item)) in
        if not (is_generated item) || is_empty value
        then ok names
        else if elem ◌==◌ (os.file_name value) names
        then ok names
        else ok (names ++ os.file_name value ∷ [])

    -- the body of the loop of `codes_for_output`
    unfoldable pub code_step : String → Dict String → List String → Fields → Result (List String)
    code_step name targets linked item =
        if not (is_output name item)
        then ok linked
        else ok (elim (get (text_or_empty py (find "voucher_id" item)) targets) [
          | none ↦ linked
          | some code ↦ if is_empty code then linked else linked ++ code ∷ []
        ])

    module _ (env : Env) where
      unfoldable pub find_duplicates : List String → Action (Dict DuplicateHit)
      find_duplicates codes = usable_secret os env >>> λ secret.
          reads
            λ d. code_targets os secret codes [] >>= λ t. for_items (duplicate_step t) [] d.journal

      unfoldable pub find_duplicates_for_batch : VoucherBatch → Action (Dict DuplicateHit)
      find_duplicates_for_batch batch = usable_secret os env >>> λ secret. reads λ d.
          batch_targets os secret batch (record { ref_targets = []; code_targets = [] })
            batch.vouchers
          >>= λ t. for_items (batch_step t) [] d.journal

      unfoldable pub generated_output_names : Action (List String)
      generated_output_names =
          usable_secret os env >>> λ secret. reads λ d. for_items name_step [] d.journal

      unfoldable pub codes_for_output : List String → String → Action (List String)
      codes_for_output candidate_codes output_path = usable_secret os env >>> λ secret. reads λ d.
          code_targets os secret candidate_codes [] >>= λ t.
          for_items (code_step (os.file_name output_path) t) [] d.journal
