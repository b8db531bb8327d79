-- ===== src/Reporting.antt =====
-- reporting.py: the rows of a report, the views over them, and totals that are checked before use.
pub mod Rows
pub mod Totals
