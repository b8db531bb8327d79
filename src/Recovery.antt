-- ===== src/Recovery.antt =====
-- The markers that survive an interrupted creation: uncertain_create_recovery.py,
-- create_reporting_recovery.py and mutation_guard.py.
pub mod Marker
pub mod Intent
pub mod Matching
pub mod Association
pub mod Reporting
pub mod Guard
