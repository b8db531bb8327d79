-- ===== src/Review.antt =====
-- The three lists of vouchers for review, and the settings that they depend on:
-- security_revocation.py, operational_alerts.py and retention.py.
pub mod Settings
pub mod Queries
pub mod Revocation
pub mod Alerts
pub mod Retention
pub mod Blockers
pub mod Disjoint
mod Tests
