-- ===== src/SecurityRevocation/Live.antt =====
-- `live_security_revocation_allowed` and `revoke_security_candidates_live` of security_revocation.py: each
-- candidate is read, requested, deleted and recorded, one after the other.
pub mod Candidate
pub mod Safety
mod Tests
use voucher_management_deskt.Prelude.{
  Bool, List, [], String, ℕ, ◌∷◌, if◌then◌else◌, false, not, strip, ◌==◌, codes_eqb, upper, codes,
  eqb, true,
}
use voucher_management_deskt.Workflows.Remote.{
  UniFi, Call, Reply, answer, fail, call_get, call_delete,
}
use voucher_management_deskt.SecurityRevocation.Records.{
  record_security_revocation_request, record_security_revocations, delete_response,
}
use voucher_management_deskt.Models.{ApiVoucher}
use voucher_management_deskt.Calendar.{Calendar}
use voucher_management_deskt.Database.Rows.{Db}
use voucher_management_deskt.Database.Action.{Result, ok, err}

pub record SecurityRevocationCandidate : Type 0 where
  pub voucher_id : ℕ
  pub controller_id : ℕ
  pub controller_name : String
  pub unifi_id : String
  pub code : String
  pub recipient : String
  pub last_printed_at : String
  pub print_date_known : Bool
  pub last_seen_at : String
  pub last_synced_at : String

-- what becomes of a candidate: the list of the result that its id is appended to
pub data RevocationClass : Type 0 where
  revoked skipped failed persistence_failed : RevocationClass

pub record SecurityRevocationBatchResult : Type 0 where
  pub revoked_ids : List ℕ
  pub skipped_ids : List ℕ
  pub failed_ids : List ℕ
  pub local_persistence_failed_ids : List ℕ

pub live_security_revocation_allowed : SecurityRevocationCandidate → ApiVoucher → Bool
live_security_revocation_allowed candidate live =
    if not (strip live.id == candidate.unifi_id)
    then false
    else if codes_eqb (upper (codes live.status)) (codes "EXPIRED")
    then false
    else eqb live.used 0

-- the tables, and the calls on the controller
abbrev pub World : Type 0
World = Db × List Call

abbrev recorded : Db → List Call → Result (List ℕ) × Db → RevocationClass × World
recorded db log (ok ids, db') = (revoked, (db', log))
recorded db log (err e, db') = (persistence_failed, (db', log))

module _ (cal : Calendar) (unifi : UniFi) (revoked_at windows_user : String)
    (candidate : SecurityRevocationCandidate) where
  -- after the DELETE
  abbrev after_delete : Db → Reply (Unit {0}) × List Call → RevocationClass × World
  after_delete db (fail e, log) = (failed, (db, log))
  after_delete db (answer a, log) = recorded db log (
      record_security_revocations cal (candidate.voucher_id ∷ []) revoked_at windows_user
        delete_response db)

  -- after the durable request
  abbrev after_request : List Call → Result Bool × Db → RevocationClass × World
  after_request log (err e, db) = (persistence_failed, (db, log))
  after_request log (ok false, db) = (skipped, (db, log))
  after_request log (ok true, db) =
      after_delete db (call_delete unifi (candidate.unifi_id ∷ []) log)

  -- after the fresh read
  abbrev after_read : Db → Reply ApiVoucher × List Call → RevocationClass × World
  after_read db (fail e, log) = (failed, (db, log))
  after_read db (answer live, log) =
      if not (live_security_revocation_allowed candidate live)
      then (skipped, (db, log))
      else after_request log
          (record_security_revocation_request cal candidate.voucher_id revoked_at windows_user db)

  -- the body of the loop
  pub revoke_live : World → RevocationClass × World
  revoke_live (db, log) = after_read db (call_get unifi candidate.unifi_id log)

abbrev add : RevocationClass → ℕ → SecurityRevocationBatchResult → SecurityRevocationBatchResult
add revoked k b = record b { revoked_ids = k ∷ b.revoked_ids }
add skipped k b = record b { skipped_ids = k ∷ b.skipped_ids }
add failed k b = record b { failed_ids = k ∷ b.failed_ids }
add persistence_failed k b = record b {
  local_persistence_failed_ids = k ∷ b.local_persistence_failed_ids;
}

abbrev pub no_results : SecurityRevocationBatchResult
no_results = record {
  revoked_ids = [];
  skipped_ids = [];
  failed_ids = [];
  local_persistence_failed_ids = [];
}

module _ (cal : Calendar) (unifi : UniFi) (revoked_at windows_user : String) where
  pub revoke_security_candidates_live :
      List SecurityRevocationCandidate → World → SecurityRevocationBatchResult × World
  revoke_security_candidates_live [] w = (no_results, w)
  revoke_security_candidates_live (candidate ∷ candidates) w =
      let (kind, w') = revoke_live cal unifi revoked_at windows_user candidate w in
      let (batch, w'') = revoke_security_candidates_live candidates w' in
      (add kind candidate.voucher_id batch, w'')
