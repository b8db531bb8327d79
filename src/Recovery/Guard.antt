-- ===== src/Recovery/Guard.antt =====
-- mutation_guard.py: the marker file that blocks a second creation. Its existence is the state.
use voucher_management_deskt.Prelude.{Bool, true, false}
use voucher_management_deskt.Database.Action.{
  guard_failed, Result, ok, err, runtime_error, marker_exists,
}

-- what the file system does not do: create the file, or write and flush what is in it
pub data Fault : Type 0 where
  no_fault open_fails write_fails : Fault

-- `CreateMutationGuard.begin`: the new state, with the marker kept where only the write failed
pub begin : Fault → Bool → Result (Unit {0}) × Bool
begin fault true = (err (runtime_error marker_exists), true)
begin open_fails false = (err (runtime_error guard_failed), false)
begin write_fails false = (err (runtime_error guard_failed), true)
begin no_fault false = (ok tt, true)

-- `CreateMutationGuard.clear`; `unlink_fails` is OSError where the file is there
pub clear : Bool → Bool → Result Bool × Bool
clear unlink_fails false = (ok false, false)
clear true true = (err (runtime_error guard_failed), true)
clear false true = (ok true, false)
