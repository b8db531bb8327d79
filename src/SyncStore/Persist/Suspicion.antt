-- ===== src/SyncStore/Persist/Suspicion.antt =====
-- An omission from a list is a suspicion only (`persist_successful_snapshot` of sync_store.py).
use voucher_management_deskt.Database.Action.{ok}
use voucher_management_deskt.SyncStore.Persist.{omit_rows, missing_row, omit_row}
use voucher_management_deskt.Database.Rows.{Voucher, has_id, Db}
use voucher_management_deskt.Calendar.{Calendar}
use voucher_management_deskt.Prelude.{
  List, ℕ, String, Bool, map, update_by, ◌≡◌, [], ◌∷◌, Bool-cases, arith, elem, refl, ◌==◌, ◌||◌,
  not, inl, inr, ◌+◌, ◌∙◌,
}

abbrev pub presence : List Voucher → List Bool
presence vs = map (λ (v : Voucher). v.present_on_controller) vs

module _ (cal : Calendar) (c : ℕ) (observed_at : String) where
  presence-missing_row :
      (k n : ℕ) (vs : List Voucher)
      → presence (update_by (has_id k) (missing_row cal c observed_at n) vs) ≡ presence vs
  unfolding missing_row
  presence-missing_row k n [] = refl
  presence-missing_row k n (v ∷ vs) = ground (arith, presence-missing_row k n vs)

  -- Without a confirmed absence, the loop over the omitted rows returns, and reports no change; it
  -- marks no row as absent and logs no event.
  pub omission_is_suspicion :
      (seen : List String) (previous : List Voucher) (db : Db)
      → ((omit_rows cal c observed_at seen [] previous db).0 ≡ ok [])
        × (presence (omit_rows cal c observed_at seen [] previous db).1.vouchers
            ≡ presence db.vouchers)
        × ((omit_rows cal c observed_at seen [] previous db).1.events ≡ db.events)
  unfolding omit_rows omit_row
  omission_is_suspicion seen [] db = (refl, refl, refl)
  omission_is_suspicion seen (old ∷ rest) db =
      elim (Bool-cases (elem ◌==◌ old.unifi_id seen || not old.present_on_controller)) [
        | inl e ↦
            let (q, t, m) = omission_is_suspicion seen rest db in
            (rw (e, q), rw (e, q) t, rw (e, q) m)
        | inr e ↦
            let n = old.missing_observation_count + 1 in
            let after = record db {
              vouchers = update_by (has_id old.id) (missing_row cal c observed_at n) db.vouchers;
            } in
            let (q, t, m) = omission_is_suspicion seen rest after in
            (rw (e, q), rw (e, q) (t ∙ presence-missing_row old.id n db.vouchers), rw (e, q) m)
      ]
