-- ===== src/Tests.antt =====
-- Concrete inputs, and the theorems at them.
mod Fixtures
mod Chat
mod Retrieval
mod Texts
mod Runs
mod Streams
mod Coding
mod Chunks
mod Tagging
mod Queue
