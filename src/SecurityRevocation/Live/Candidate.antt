-- ===== src/SecurityRevocation/Live/Candidate.antt =====
-- What becomes of one candidate of a batch of security_revocation.py.
use voucher_management_deskt.Database.Action.{Result-cases, ok, Error, err}
use voucher_management_deskt.SecurityRevocation.Records.{
  record_security_revocation_request, record_security_revocations, delete_response,
}
use voucher_management_deskt.Models.{ApiVoucher}
use voucher_management_deskt.Database.Rows.{Db}
use voucher_management_deskt.Prelude.{
  String, List, ◌≡◌, strip, ◌++◌, ◌==◌, ◌∷◌, true, [], codes_eqb, ◌≢◌, upper, ◌⊎◌, codes, false,
  inr, inl, arith, Bool-cases, eqb_iff, ℕ, ap, sym, ◌∙◌, subst,
}
use voucher_management_deskt.Calendar.{Calendar}
use voucher_management_deskt.SecurityRevocation.Live.{
  after_delete, revoke_live, SecurityRevocationCandidate, World, RevocationClass, revoked,
  live_security_revocation_allowed, failed, persistence_failed,
}
use voucher_management_deskt.SecurityRevocation.Records.Intent.{IsMarked, intent_is_durable}
use voucher_management_deskt.Workflows.Remote.{
  Reply-cases, UniFi, Call, answer, get_voucher, delete_vouchers, call_delete, RemoteError, fail,
}

allowed-lem :
    (candidate : SecurityRevocationCandidate) (live : ApiVoucher)
    → live_security_revocation_allowed candidate live ≡ true
    → ((strip live.id == candidate.unifi_id) ≡ true)
      × (live.used ≡ 0)
      × (codes_eqb (upper (codes live.status)) (codes "EXPIRED") ≡ false)
unfolding live_security_revocation_allowed
allowed-lem candidate live h = ground (arith, eqb_iff live.used 0)

module _ (cal : Calendar) (unifi : UniFi) (revoked_at windows_user : String) where
  abbrev deletion : SecurityRevocationCandidate → Db → List Call → RevocationClass × World
  deletion candidate db log =
      after_delete cal unifi revoked_at windows_user candidate db
        (call_delete unifi (candidate.unifi_id ∷ []) log)

  -- The candidate was read, and is not in use: so it was requested, and only then deleted.
  pub record IsDeletion (candidate : SecurityRevocationCandidate) (db : Db) (log : List Call)
      (requested_db : Db) : Type 0 where
    pub live : ApiVoucher
    pub read : unifi.on_get log candidate.unifi_id ≡ answer live
    pub same_id : (strip live.id == candidate.unifi_id) ≡ true
    pub unused : live.used ≡ 0
    pub not_expired : codes_eqb (upper (codes live.status)) (codes "EXPIRED") ≡ false
    pub requested : IsMarked candidate.voucher_id db requested_db

  -- What the reply to the deletion decides, from the tables with the request: no answer is a failure, and
  -- changes nothing; after an answer the row is recorded as revoked, and reported so if that succeeds.
  pub IsConcluded : SecurityRevocationCandidate → List Call → Db → RevocationClass × World → Type 0
  IsConcluded candidate log requested_db out =
      ((e : RemoteError) × (unifi.on_delete log (candidate.unifi_id ∷ []) ≡ fail e)
        × (out.0 ≡ failed)
        × (out.1.0 ≡ requested_db))
      ⊎ ((ids : List ℕ) × (unifi.on_delete log (candidate.unifi_id ∷ []) ≡ answer tt)
          × (out.0 ≡ revoked)
          × (record_security_revocations cal (candidate.voucher_id ∷ []) revoked_at windows_user
                delete_response requested_db
              ≡ (ok ids, out.1.0)))
      ⊎ ((e : Error) × (unifi.on_delete log (candidate.unifi_id ∷ []) ≡ answer tt)
          × (out.0 ≡ persistence_failed)
          × (record_security_revocations cal (candidate.voucher_id ∷ []) revoked_at windows_user
                delete_response requested_db
              ≡ (err e, out.1.0)))

  -- One candidate: it is read; and either that is all, and it is not reported as revoked, or the one
  -- further call is its deletion, with all the evidence, from the tables that hold the request.
  pub IsSafe : SecurityRevocationCandidate → World → RevocationClass × World → Type 0
  IsSafe candidate w out =
      ((out.1.1 ≡ w.1 ++ get_voucher candidate.unifi_id ∷ []) × (out.0 ≢ revoked))
      ⊎ ((requested_db : Db) × (out.1.1
            ≡ (w.1 ++ get_voucher candidate.unifi_id ∷ [])
              ++ delete_vouchers (candidate.unifi_id ∷ []) ∷ [])
          × IsDeletion candidate w.0 w.1 requested_db
          × IsConcluded candidate (w.1 ++ get_voucher candidate.unifi_id ∷ []) requested_db out)

  after_delete-sent :
      (candidate : SecurityRevocationCandidate) (db : Db) (log : List Call)
      → (deletion candidate db log).1.1 ≡ log ++ delete_vouchers (candidate.unifi_id ∷ []) ∷ []
  after_delete-sent candidate db log =
      let work =
        record_security_revocations cal (candidate.voucher_id ∷ []) revoked_at windows_user
          delete_response in
      elim (Reply-cases (unifi.on_delete log (candidate.unifi_id ∷ []))) [
        | inr (e, r) ↦ ground arith
        | inl (a, r) ↦ elim (Result-cases (work db).0) [
          | inr (e, q) ↦ ground arith
          | inl (ids, q) ↦ ground arith
        ]
      ]

  after_delete-IsConcluded :
      (candidate : SecurityRevocationCandidate) (db : Db) (log : List Call)
      → IsConcluded candidate log db (deletion candidate db log)
  unfolding IsConcluded
  after_delete-IsConcluded candidate db log =
      let work =
        record_security_revocations cal (candidate.voucher_id ∷ []) revoked_at windows_user
          delete_response in
      elim (Reply-cases (unifi.on_delete log (candidate.unifi_id ∷ []))) [
        | inr (e, r) ↦ inl (e, r, ground arith, ground arith)
        | inl (a, r) ↦ elim (Result-cases (work db).0) [
          | inr (e, q) ↦ inr (inr (e, r, ground arith, ground arith))
          | inl (ids, q) ↦ inr (inl (ids, r, ground arith, ground arith))
        ]
      ]

  pub revoke_live-IsSafe :
      (candidate : SecurityRevocationCandidate) (w : World)
      → IsSafe candidate w (revoke_live cal unifi revoked_at windows_user candidate w)
  unfolding IsSafe revoke_live
  revoke_live-IsSafe candidate (db, log) =
      let log1 = log ++ get_voucher candidate.unifi_id ∷ [] in
      let request =
        record_security_revocation_request cal candidate.voucher_id revoked_at windows_user in
      elim (Reply-cases (unifi.on_get log candidate.unifi_id)) [
        | inr (e, r) ↦ inl (ground arith, ground arith)
        | inl (live, r) ↦ elim (Bool-cases (live_security_revocation_allowed candidate live)) [
          | inr a ↦ inl (ground arith, ground arith)
          | inl a ↦ elim (Result-cases (request db).0) [
            | inr (e, q) ↦ inl (ground arith, ground arith)
            | inl (false, q) ↦ inl (ground arith, ground arith)
            | inl (true, q) ↦
                (let (same, used, expired) = allowed-lem candidate live a in
                  let out = revoke_live cal unifi revoked_at windows_user candidate (db, log) in
                  let run : deletion candidate (request db).1 log1 ≡ out = ground arith in
                  inr (
                    (request db).1,
                    ap (λ o. o.1.1) (sym run) ∙ after_delete-sent candidate (request db).1 log1,
                    record {
                      live = live;
                      read = r;
                      same_id = same;
                      unused = used;
                      not_expired = expired;
                      requested =
                          (intent_is_durable cal candidate.voucher_id revoked_at windows_user db
                            q).0;
                    },
                    subst (IsConcluded candidate log1 (request db).1) run
                        (after_delete-IsConcluded candidate (request db).1 log1),
                  ))
          ]
        ]
      ]
