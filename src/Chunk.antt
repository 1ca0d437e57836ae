-- ===== src/Chunk.antt =====
-- lib/chunk.ts: the chunker. Its parts: the offsets of tokens (Offsets), the ranges that no boundary
-- may split (Ranges), the choice of a boundary (Boundary), the slices (Slices), the inputs that are
-- embedded (Embed); and what is proved of them.
pub mod Offsets
pub mod Ranges
pub mod Boundary
pub mod Slices
pub mod Embed
pub mod Decoding
pub mod Lengths
pub mod Search
pub mod Merge
pub mod Cut
pub mod Breaks
pub mod Prefer
pub mod Rounds
pub mod Cover
