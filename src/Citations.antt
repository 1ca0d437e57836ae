-- ===== src/Citations.antt =====
-- lib/retrieval-citations.ts: the check of the citations in a synthesized answer.
pub mod Blocks
pub mod Validate
pub mod Laws
