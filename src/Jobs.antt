-- ===== src/Jobs.antt =====
-- lib/jobs.ts: the producer of the job queue. Payload is the scan of a payload, Enqueue the insert with
-- its conflicts; Scan and Outcomes hold proofs.
pub mod Payload
pub mod Enqueue
pub mod Scan
pub mod Outcomes
