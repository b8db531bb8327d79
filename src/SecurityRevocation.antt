-- ===== src/SecurityRevocation.antt =====
-- security_revocation.py: printed vouchers that stay unused are removed from the controller, and
-- the local history keeps them.
pub mod Records
pub mod Reconciliation
pub mod Live
