-- ===== src/History/Resolve/Tests.antt =====
-- A pending print, resolved.
use voucher_management_deskt.Database.Action.{ok}
use voucher_management_deskt.History.Pending.{submitted}
use voucher_management_deskt.Prelude.{strip, is_space, ◌≡◌, ◌∷◌, [], some, none, refl}
use voucher_management_deskt.UnifiApi.Pages.Tests.{python}
use voucher_management_deskt.History.Samples.{platform, working, sample_pending}
use voucher_management_deskt.History.Resolve.{
  Candidates, ResolvedPendingPrint, resolve_with, candidate_ids, add_candidates, add_candidate,
  is_free, add_identity, resolve_records, labels_of_records, labels_of_record, is_consistent,
  copies_of, identity_of, resolved, replicate,
}
use voucher_management_deskt.History.Identity.{digest, is_ascii}
use voucher_management_deskt.History.Values.{text_or_empty}
use voucher_management_deskt.Json.{find}
use voucher_management_deskt.History.Resolve.Exact.{IsResolution, resolve_with-IsResolution}

abbrev candidates : Candidates
candidates = record {
  candidate_codes = " 1234567890" ∷ "0987654321" ∷ [];
  site_id = "site";
  candidate_unifi_ids = none;
}

abbrev resolved_print : ResolvedPendingPrint
resolved_print = record {
  state = submitted;
  audit_id = "abc";
  codes = "1234567890" ∷ "1234567890" ∷ "0987654321" ∷ [];
  output_file = "Voucher.pdf";
  document_copies = 2;
  submitted_at = "2026-01-01T00:00:00+00:00";
  unifi_ids = [];
}

resolves :
    resolve_with python platform working candidates sample_pending "0123456789abcdef"
    ≡ ok (some resolved_print)
unfolding resolve_with candidate_ids add_candidates add_candidate strip is_space digest is_ascii
    is_free add_identity resolve_records labels_of_records labels_of_record is_consistent
    text_or_empty find copies_of identity_of resolved replicate
resolves = refl

resolve_with-IsResolution_example :
    IsResolution platform "0123456789abcdef" candidates python sample_pending resolved_print
resolve_with-IsResolution_example =
    resolve_with-IsResolution platform "0123456789abcdef" candidates python working sample_pending
      resolves
