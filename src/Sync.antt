-- ===== src/Sync.antt =====
-- src/sync: the synchronisation of profiles.
pub mod Retry
pub mod Journal
pub mod Lock
pub mod Envelope
pub mod Merge
pub mod Tombstones
pub mod Cas
