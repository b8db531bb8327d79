-- ===== src/PreparationDeletion.antt =====
-- preparation_deletion.py: the intent to delete a voucher that was prepared wrongly is recorded
-- before the remote DELETE, and resolved by the response or by a later synchronization.
pub mod Requests
pub mod Resolution
