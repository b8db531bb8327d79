-- ===== src/SyncStore.antt =====
-- sync_store.py: a controller snapshot becomes durable state, observations and resolved requests.
pub mod Absences
pub mod Persist
pub mod Snapshot
