-- ===== src/History.antt =====
-- history.py: the audit trail of generated and printed vouchers. The journal holds keyed digests in
-- place of codes; a marker beside it says that a print is not audited yet; the key's fingerprint in the
-- settings ties the rows to the key.
pub mod Base
pub mod Identity
pub mod Values
pub mod Pending
pub mod Records
pub mod Journal
pub mod Print
pub mod Steps
pub mod Samples
pub mod Batch
pub mod Queries
pub mod Resolve
