-- ===== src/Database/Created.antt =====
-- `Database.mark_application_created_vouchers`: local facts of vouchers that the application has
-- created.
pub mod Facts
mod Tests
use voucher_management_deskt.Prelude.{
  ℕ, String, Bool, false, not, List, eqb, if◌then◌else◌, count_by, update_by, length, clean_ids,
  strip, is_empty, is_nil, some,
}
use voucher_management_deskt.Database.Rows.{Voucher, application, not_printed}
use voucher_management_deskt.Database.Action.{
  Action, pure, ◌>>=◌, gets, ◌>>◌, modify, raise_if, runtime_error, value_error,
  created_missing_from_snapshot, missing_timestamp,
}
use voucher_management_deskt.Database.Selection.{selected}

-- the SET clause
unfoldable pub marked_row : Bool → String → Voucher → Voucher
marked_row is_nominal stamp v = record v {
  origin = application;
  is_nominal = some is_nominal;
  print_state = not_printed;
  alignment_completed_at = some stamp;
  nominality_redacted = false;
}

-- the UPDATE, and the test of its rowcount
unfoldable pub mark_rows : ℕ → List String → Bool → String → Action (Unit {0})
unfolding marked_row
mark_rows c ids is_nominal stamp = do
  changed ← gets (λ db. count_by (selected c ids) db.vouchers)
  modify (λ db. record db {
    vouchers = update_by (selected c ids) (marked_row is_nominal stamp) db.vouchers;
  })
  raise_if (not (eqb changed (length ids))) (runtime_error created_missing_from_snapshot)

-- on a connection whose transaction the caller owns
unfoldable pub mark_application_created_vouchers :
    ℕ → List String → Bool → String → Action (Unit {0})
unfolding mark_rows
mark_application_created_vouchers c unifi_ids is_nominal aligned_at =
    if is_nil (clean_ids unifi_ids) then pure tt else do
      raise_if (is_empty (strip aligned_at)) (value_error missing_timestamp)
      mark_rows c (clean_ids unifi_ids) is_nominal (strip aligned_at)
