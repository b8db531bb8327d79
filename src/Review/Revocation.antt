-- ===== src/Review/Revocation.antt =====
-- `security_revocation_candidates` of security_revocation.py.
use voucher_management_deskt.Database.Action.{Result, ok, err, value_error, bad_timestamp}
use voucher_management_deskt.Prelude.{
  String, Option, List, ℕ, some, Bool, false, none, if◌then◌else◌, strip, filter_by, not, true, [],
  or_empty, ◌∷◌, ◌&&◌, is_empty, eqb, map, ◌||◌,
}
use voucher_management_deskt.Database.Rows.{Db, VoucherPrint, Voucher, is_printed}
use voucher_management_deskt.Review.Settings.{Setting, days_of}
use voucher_management_deskt.Review.Queries.{
  Clock, of_controller, is_joined, joined_name, controller_name, sort_by,
}
use voucher_management_deskt.SecurityRevocation.Live.{SecurityRevocationCandidate}
use voucher_management_deskt.Database.Queries.{
  has_event, is_revoke_requested, is_revoked, is_archived,
}
use voucher_management_deskt.Json.{Python}

module _ (clock : Clock) where
  -- `MAX(vp.printed_at)`
  abbrev later : String → Option String → Option String
  later s none = some s
  later s (some t) = if clock.text_le s t then some t else some s

  abbrev last_of : ℕ → List VoucherPrint → Option String
  last_of k [] = none
  last_of k (p ∷ ps) =
      let rest = last_of k ps in if eqb p.voucher_id k then later p.printed_at rest else rest

  abbrev pub last_printed : Db → Voucher → Option String
  last_printed db v = last_of v.id db.prints

  -- `julianday(v.last_seen_at) > julianday(MAX(vp.printed_at))`, with NULL never greater
  abbrev seen_after : Option String → String → Bool
  seen_after none p = false
  seen_after (some s) p =
      clock.has_julianday s && clock.has_julianday p && not (clock.julian_le s p)

  -- the HAVING clause
  abbrev old_enough : String → Option String → Option String → Bool
  old_enough cutoff seen none = true
  old_enough cutoff seen (some p) = clock.text_le p cutoff && seen_after seen p

  unfoldable pub is_revocation_candidate : Db → String → Option ℕ → Voucher → Bool
  is_revocation_candidate db cutoff c v =
      not (is_archived v)
      && v.present_on_controller
      && not v.expired
      && v.usage_observed
      && not v.ever_used
      && eqb v.authorized_guest_count 0
      && is_printed v.print_state
      && not (has_event is_revoke_requested v.id db || has_event is_revoked v.id db)
      && of_controller c v
      && is_joined db v
      && old_enough cutoff v.last_seen_at (last_printed db v)

  abbrev candidate_of : Db → Voucher → SecurityRevocationCandidate
  candidate_of db v = record {
    voucher_id = v.id;
    controller_id = v.controller_id;
    controller_name = controller_name (joined_name db v);
    unifi_id = v.unifi_id;
    code = v.code;
    recipient = strip v.name;
    last_printed_at = or_empty (last_printed db v);
    print_date_known = not (is_empty (strip (or_empty (last_printed db v))));
    last_seen_at = or_empty v.last_seen_at;
    last_synced_at = v.last_synced_at;
  }

  -- no known print first, then the oldest
  abbrev printed_before : Option String → Option String → Bool
  printed_before none none = false
  printed_before none (some q) = true
  printed_before (some p) none = false
  printed_before (some p) (some q) = not (clock.text_le q p)

  unfoldable pub revocation_rows : Db → String → Option ℕ → List Voucher
  revocation_rows db cutoff c =
      sort_by (λ v w. printed_before (last_printed db v) (last_printed db w))
        (filter_by (is_revocation_candidate db cutoff c) db.vouchers)

  abbrev candidates_from : Db → Option ℕ → Option String → Result (List SecurityRevocationCandidate)
  candidates_from db c none = err (value_error bad_timestamp)
  candidates_from db c (some cutoff) = ok (map (candidate_of db) (revocation_rows db cutoff c))

  abbrev candidates_within :
      Db → String → Option ℕ → Option ℕ → Result (List SecurityRevocationCandidate)
  candidates_within db now c none = ok []
  candidates_within db now c (some days) = candidates_from db c (clock.cutoff now days)

  pub security_revocation_candidates :
      Python → List Setting → Db → String → Option ℕ → Result (List SecurityRevocationCandidate)
  security_revocation_candidates py settings db now c =
      candidates_within db now c (days_of py "security_revoke_printed_unused_days" settings)
