-- ===== src/Database.antt =====
-- database.py: the tables, transactions, and the methods of `Database` that write vouchers and
-- print audits.
pub mod Rows
pub mod Action
pub mod WellFormed
pub mod Selection
pub mod Created
pub mod Queries
pub mod PrintLabels
pub mod PrintAudit
pub mod PrintSummary
pub mod Upsert
