-- ===== src/Store.antt =====
-- drizzle/schema.ts: the tables that ingestion and the tag operations write, and what a statement, a
-- transaction and a failure do to them (Sessions).
pub mod Sessions
pub mod Outcomes
pub mod Lookups
pub mod Rows
unfoldable pub use Rows.*
