-- ===== src/History/Batch.antt =====
-- history.py: `voucher_links_for_output` and `record_batch`.
pub mod Recorded
pub mod Duplicates
use voucher_management_deskt.Database.Action.{Result, ok, err, history_error, ambiguous_link}
use voucher_management_deskt.Prelude.{
  String, List, Option, Bool, ℕ, if◌then◌else◌, [], strip, some, not, is_empty, ◌∷◌, suc, ◌++◌,
  ◌||◌, none,
}
use voucher_management_deskt.Prelude.Dicts.{Dict, put, get}
use voucher_management_deskt.Json.{Fields, Python, find, pos, field, text, num, bool, end}
use voucher_management_deskt.History.Base.{
  Platform, Env, Action, ◌>>>◌, ◌>>=◌, reads, for_items, append,
}
use voucher_management_deskt.History.Identity.{usable_secret, digest, stable_digest}
use voucher_management_deskt.History.Values.{text_or_empty}
use voucher_management_deskt.History.Journal.{verify_event}
use voucher_management_deskt.History.Queries.{is_output}
use voucher_management_deskt.Workflows.Printing.{VoucherBatch, VoucherRecord}

-- `ref_targets` and `legacy_targets`, whose pairs are a remote id and a code
pub record LinkTargets : Type 0 where
  pub refs : Dict (String × String)
  pub legacy : Dict (List (String × String))

abbrev pub or_nil : Option (List (String × String)) → List (String × String)
or_nil none = []
or_nil (some ls) = ls

module _ (os : Platform) (site_id secret : String) where
  unfoldable pub add_link : LinkTargets → String × String → Result LinkTargets
  add_link t candidate =
      let remote = strip candidate.0 in
      let display = strip candidate.1 in
      let stable = stable_digest os site_id remote secret in
      if is_empty remote || is_empty display
      then ok t
      else digest os display secret >>= λ d. ok (record {
        refs = if is_empty stable then t.refs else put stable (remote, display) t.refs;
        legacy = put d (or_nil (get d t.legacy) ++ (remote, display) ∷ []) t.legacy;
      })

  unfoldable pub link_targets : LinkTargets → List (String × String) → Result LinkTargets
  link_targets t [] = ok t
  link_targets t (c ∷ cs) = add_link t c >>= λ t'. link_targets t' cs

-- what a legacy row links to, where that is certain
unfoldable pub legacy_link :
    List (String × String) → List (String × String) → Result (List (String × String))
legacy_link linked [] = ok linked
legacy_link linked (m ∷ []) = ok (linked ++ m ∷ [])
legacy_link linked (m ∷ n ∷ ms) = err (history_error ambiguous_link)

module _ (py : Python) (os : Platform) where
  -- the body of the loop of `voucher_links_for_output`
  unfoldable pub link_step :
      String → LinkTargets → List (String × String) → Fields → Result (List (String × String))
  link_step name t linked item =
      let stable = text_or_empty py (find "voucher_ref" item) in
      if not (is_output py os name item)
      then ok linked
      else if is_empty stable
      then legacy_link linked (or_nil (get (text_or_empty py (find "voucher_id" item)) t.legacy))
      else ok (elim (get stable t.refs) [ none ↦ linked | some m ↦ linked ++ m ∷ [] ])

  module _ (env : Env) where
    unfoldable pub voucher_links_for_output :
        List (String × String) → String → String → Action (List (String × String))
    voucher_links_for_output candidate_vouchers site_id output_path =
        usable_secret os env >>> λ secret. reads λ d.
          link_targets os site_id secret (record { refs = []; legacy = [] }) candidate_vouchers
          >>= λ t. for_items (link_step (os.file_name output_path) t) [] d.journal

    -- a record of `record_batch`
    unfoldable pub generate_record :
        VoucherBatch → String → Bool → String → String → VoucherRecord → String → Fields
    generate_record batch output_name reprint secret event_id v voucher_id =
        let stable = stable_digest os batch.site_id v.unifi_id secret in
        let rest =
          field "recipient" (text (if is_empty v.recipient then batch.recipient else v.recipient)) (
            field "duration_minutes" (num (pos v.duration_minutes)) (
              field "timestamp" (text env.now) (
                field "source" (text "CONTROLLER_API") (
                  field "output_file" (text output_name) (field "reprint" (bool reprint) end))))) in
        field "event" (text "generate") (
          field "event_id" (text event_id) (
            field "voucher_id" (text voucher_id)
              (if is_empty stable then rest else field "voucher_ref" (text stable) rest)))

    -- the list comprehension; the tokens are numbered from `n`
    unfoldable pub generate_records :
        VoucherBatch → String → Bool → String → ℕ → List VoucherRecord → Result (List Fields)
    generate_records batch output_name reprint secret n [] = ok []
    generate_records batch output_name reprint secret n (v ∷ vs) = digest os v.code secret >>= λ d.
        generate_records batch output_name reprint secret (suc n) vs >>= λ rs.
        ok (generate_record batch output_name reprint secret (env.token n) v d ∷ rs)

    unfoldable pub record_batch : VoucherBatch → String → Bool → Action (Unit {0})
    record_batch batch output_path reprint = usable_secret os env >>> λ secret.
        reads
          (λ d. generate_records batch (os.file_name output_path) reprint secret 0 batch.vouchers)
        >>> λ rs. append env rs >>> λ _. reads λ d. verify_event py rs "generate" d.journal
