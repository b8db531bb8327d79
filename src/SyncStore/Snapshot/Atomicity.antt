-- ===== src/SyncStore/Snapshot/Atomicity.antt =====
-- A snapshot that fails (`persist_successful_snapshot` of sync_store.py) leaves the history as it was.
use voucher_management_deskt.Database.Rows.{Db}
use voucher_management_deskt.Models.{ApiVoucher}
use voucher_management_deskt.Prelude.{ℕ, String, List, ◌≡◌, arith}
use voucher_management_deskt.Calendar.{Calendar}
use voucher_management_deskt.Database.Action.{transaction, Error, err}
use voucher_management_deskt.SyncStore.Snapshot.{persist_successful_snapshot, SnapshotOptions}

-- A snapshot that raises, at whatever statement, has changed nothing.
pub snapshot_atomic :
    (cal : Calendar) (c : ℕ) (observed_at run : String) (vouchers : List ApiVoucher)
    (options : SnapshotOptions) (db : Db) {e : Error}
    → (persist_successful_snapshot cal c observed_at run vouchers options db).0 ≡ err e
    → (persist_successful_snapshot cal c observed_at run vouchers options db).1 ≡ db
unfolding persist_successful_snapshot transaction
snapshot_atomic cal c observed_at run vouchers options db h = ground arith
