-- ===== src/SecurityRevocation/Live/Tests.antt =====
-- A batch of two candidates (security_revocation.py): one is used by now.
use voucher_management_deskt.Prelude.{List, [], ℕ, if◌then◌else◌, ◌∷◌, String, ◌==◌, false}
use voucher_management_deskt.Samples.{first_voucher, second_voucher}
use voucher_management_deskt.Workflows.Remote.{UniFi, answer}
use voucher_management_deskt.SecurityRevocation.Live.{SecurityRevocationCandidate}

abbrev candidate : ℕ → String → SecurityRevocationCandidate
candidate k unifi_id = record {
  voucher_id = k;
  controller_id = 1;
  controller_name = "site";
  unifi_id = unifi_id;
  code = "12345-67890";
  recipient = "Ada";
  last_printed_at = "";
  print_date_known = false;
  last_seen_at = "2026-01-01";
  last_synced_at = "2026-01-01";
}

abbrev live_client : UniFi
live_client = record {
  on_list = λ log. answer [];
  on_get = λ log u.
      if u == "a" then answer first_voucher else answer (record second_voucher { used = 1 });
  on_create = λ log p. answer [];
  on_delete = λ log ids. answer tt;
}

abbrev candidates : List SecurityRevocationCandidate
candidates = candidate 1 "a" ∷ candidate 2 "b" ∷ []
