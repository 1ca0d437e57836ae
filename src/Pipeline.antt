-- ===== src/Pipeline.antt =====
-- lib/retrieval-pipeline.ts: the retrieval pipeline of a query.
pub mod Types
pub mod Hydrate
pub mod Synthesis
pub mod Stages
pub mod Facts
pub mod Exits
pub mod Walk
pub mod Audit
pub mod Page
pub mod Isolation
pub mod Eval
