-- ===== src/Tags.antt =====
-- lib/tags.ts: the tag operations. Their parts: how a tag is normalised and checked (Names), the
-- payload of the audit row (Payloads), the operations (Operations), and what is proved of them.
pub mod Names
pub mod Payloads
pub mod Transforms
pub mod Operations
pub mod Steps
pub mod Swept
pub mod One
pub mod Sweeps
pub mod Runs
pub mod Whole
pub mod Renamed
pub mod MergeNames
pub mod Merged
