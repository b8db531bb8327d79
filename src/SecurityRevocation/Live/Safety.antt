-- ===== src/SecurityRevocation/Live/Safety.antt =====
-- Which deletions a batch of security_revocation.py sends, and what it reports of each candidate.
use voucher_management_deskt.SecurityRevocation.Live.Candidate.{IsSafe}
use voucher_management_deskt.Prelude.{String, List, ◌≡◌, ◌∷◌, [], ℕ, count_by, eqb, ◌+◌}
use voucher_management_deskt.Calendar.{Calendar}
use voucher_management_deskt.SecurityRevocation.Live.{
  SecurityRevocationCandidate, World, RevocationClass, revoked, SecurityRevocationBatchResult,
  revoke_security_candidates_live, skipped, failed, persistence_failed, no_results,
}
use voucher_management_deskt.Workflows.Remote.{UniFi}

module _ (cal : Calendar) (unifi : UniFi) (revoked_at windows_user : String) where
  -- what a class adds to the four lists of the result
  abbrev pub IsReported :
      RevocationClass → ℕ → SecurityRevocationBatchResult → SecurityRevocationBatchResult → Type 0
  IsReported revoked k rest b = b ≡ record rest { revoked_ids = k ∷ rest.revoked_ids }
  IsReported skipped k rest b = b ≡ record rest { skipped_ids = k ∷ rest.skipped_ids }
  IsReported failed k rest b = b ≡ record rest { failed_ids = k ∷ rest.failed_ids }
  IsReported persistence_failed k rest b =
      b ≡ record rest { local_persistence_failed_ids = k ∷ rest.local_persistence_failed_ids }

  -- a result with the tables and the log, as a safe run of every candidate, each from what the one before
  -- has left, and reported as what it came to
  pub AreSafe :
      List SecurityRevocationCandidate → World → SecurityRevocationBatchResult × World → Type 0
  AreSafe [] w out = (out.0 ≡ no_results) × (out.1 ≡ w)
  AreSafe (candidate ∷ candidates) w out =
      (kind : RevocationClass) × (w' : World) × (rest : SecurityRevocationBatchResult) × IsSafe cal
        unifi revoked_at windows_user candidate w (kind, w')
      × IsReported kind candidate.voucher_id rest out.0
      × AreSafe candidates w' (rest, out.1)

  abbrev pub result : List SecurityRevocationCandidate → World → SecurityRevocationBatchResult
  result candidates w =
      (revoke_security_candidates_live cal unifi revoked_at windows_user candidates w).0

  -- how often a row is reported
  abbrev pub reports : ℕ → SecurityRevocationBatchResult → ℕ
  reports k b =
      count_by (eqb k) b.revoked_ids
      + count_by (eqb k) b.skipped_ids
      + count_by (eqb k) b.failed_ids
      + count_by (eqb k) b.local_persistence_failed_ids
