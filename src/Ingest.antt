-- ===== src/Ingest.antt =====
-- lib/ingest.ts and lib/caption.ts: creating and updating an entry, with its version, chunks and
-- audit row. What is proved of them is in Atomic and Tables.
pub mod Caption
pub mod Entries
pub mod Writes
pub mod Effects
pub mod Atomic
pub mod Consistent
