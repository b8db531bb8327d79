-- ===== src/Recovery/Matching/Tests.antt =====
-- Two vouchers, of which one is in the baseline of the intent.
use voucher_management_deskt.Prelude.{
  String, ◌∷◌, strip, from_keys, elem, [], none, ◌==◌, ◌≡◌, any_by, true, refl, is_unique, ◌↔◌,
  length, ◌<◌,
}
use voucher_management_deskt.Samples.{first_voucher, second_voucher}
use voucher_management_deskt.Recovery.Matching.{
  match_pending_create_intent, match_pending-Candidates, is_candidate, CreateRecoveryMatch, exact,
  ambiguous,
}
use voucher_management_deskt.Recovery.Intent.{PendingCreateIntent}

abbrev digest : String → String
digest s = "d"

abbrev one : PendingCreateIntent
one = record {
  controller_id = 1;
  site_id = "site";
  requested_at = "2026-01-03";
  baseline_ids = "b" ∷ [];
  quantity = 1;
  recipient_digest = "d";
  duration_minutes = 60;
  quota = 1;
  data_mb = none;
  down_kbps = none;
  up_kbps = none;
  is_nominal = true;
}

abbrev matched : CreateRecoveryMatch
matched = match_pending_create_intent digest one (first_voucher ∷ second_voucher ∷ [])

match_pending-Candidates_example :
    ((u : String)
      → elem ◌==◌ u matched.compatible_ids
        ≡ any_by (is_candidate digest one u) (first_voucher ∷ second_voucher ∷ []))
    × (is_unique ◌==◌ matched.compatible_ids ≡ true)
    × ((matched.status ≡ exact) ↔ (length matched.compatible_ids ≡ 1))
    × ((matched.status ≡ ambiguous) ↔ (1 < length matched.compatible_ids))
match_pending-Candidates_example =
    match_pending-Candidates digest one (first_voucher ∷ second_voucher ∷ [])

found_one : matched ≡ record { status = exact; compatible_ids = "a" ∷ []; new_ids = "a" ∷ [] }
unfolding match_pending_create_intent strip from_keys
found_one = refl
