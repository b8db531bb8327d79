-- ===== src/Review/Blockers.antt =====
-- `generated_retention_blockers` and `reviewable_retention_candidates` of retention.py. The print journal
-- (history.py) and the rows of `legacy_audit_events` are parameters.
use voucher_management_deskt.Prelude.{
  Bool, String, ℕ, List, elem, ◌||◌, from_keys, ltb, map, ◌==◌, filter_by, Option, eqb, ◌++◌, not,
  false, if◌then◌else◌, ◌&&◌, is_empty, is_nil, strip, [],
}
use voucher_management_deskt.Review.Retention.{RetentionCandidate, Store, retention_candidates}
use voucher_management_deskt.Review.Queries.{Clock}
use voucher_management_deskt.Database.Rows.{Db, Voucher, EventType, other}
use voucher_management_deskt.Database.Queries.{has_event}
use voucher_management_deskt.Database.Action.{Result, ok, err}
use voucher_management_deskt.Calendar.{Calendar}

-- the counters of `history.stats_for_codes` that are read
pub record CodeStats : Type 0 where
  pub generated_documents : ℕ
  pub generated_copies : ℕ
  pub print_jobs : ℕ
  pub printed_copies : ℕ

pub record Evidence : Type 0 where
  -- `history.stats_for_codes(codes, settings)`, which has an entry for each of the codes
  pub stats_for_codes : List String → Result (String → CodeStats)
  -- a resolved row of `legacy_audit_events` for this voucher, of type 'generate' or 'print'
  pub has_legacy_audit : ℕ → Bool

abbrev is_legacy_generated : EventType → Bool
is_legacy_generated (other s) = s == "LEGACY_PDF_GENERATED"
is_legacy_generated _ = false

pub has_document : CodeStats → Bool
has_document s =
    ltb 0 s.generated_documents
    || ltb 0 s.generated_copies
    || ltb 0 s.print_jobs
    || ltb 0 s.printed_copies

-- the rows asked for that have a code
abbrev coded_rows : Db → List ℕ → List Voucher
coded_rows db ids =
    filter_by (λ (v : Voucher). elem eqb v.id ids && not (is_empty (strip v.code))) db.vouchers

abbrev row_id : Voucher → ℕ
row_id v = v.id

module _ (evidence : Evidence) (db : Db) where
  -- the two SELECTs on the imported evidence
  pub legacy_blocks : ℕ → Bool
  legacy_blocks k = has_event is_legacy_generated k db || evidence.has_legacy_audit k

  abbrev blocked_by : List ℕ → List Voucher → Result (String → CodeStats) → Result (List ℕ)
  blocked_by ids rows (err e) = err e
  blocked_by ids rows (ok stats) = ok (
      map row_id (filter_by (λ (v : Voucher). has_document (stats v.code)) rows)
      ++ filter_by legacy_blocks ids)

  -- `requested` is `tuple(dict.fromkeys(...))`; the result is a set
  pub generated_retention_blockers : List ℕ → Result (List ℕ)
  generated_retention_blockers voucher_ids =
      let requested = from_keys eqb voucher_ids in
      let rows = coded_rows db requested in
      if is_nil rows
      then ok []
      else blocked_by requested rows (evidence.stats_for_codes (map (λ (v : Voucher). v.code) rows))

  abbrev candidate_id : RetentionCandidate → ℕ
  candidate_id x = x.voucher_id

  abbrev unblocked : List RetentionCandidate → Result (List ℕ) → Result (List RetentionCandidate)
  unblocked candidates (err e) = err e
  unblocked candidates (ok blocked) =
      ok (filter_by (λ (x : RetentionCandidate). not (elem eqb x.voucher_id blocked)) candidates)

  abbrev reviewed : Result (List RetentionCandidate) → Result (List RetentionCandidate)
  reviewed (err e) = err e
  reviewed (ok candidates) =
      unblocked candidates (generated_retention_blockers (map candidate_id candidates))

  pub reviewable_retention_candidates :
      Calendar → Clock → String → Option ℕ → Store → Result (List RetentionCandidate) × Store
  reviewable_retention_candidates cal clock now c store =
      let (found, store') = retention_candidates clock cal db now c store in
      (reviewed found, store')
