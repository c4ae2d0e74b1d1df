-- ===== src/Queue.antt =====
-- The queue of background jobs: src/jobs/worker.ts, src/jobs/enqueue.ts, and the
-- scheduling of digests in src/services/jobMatchNotifier.ts.
pub mod Model
pub mod State
pub mod Worker
pub mod Digest
pub mod Rules
pub mod Settling
pub mod Calls
pub mod Rows
pub mod Invariants
pub mod Claims
pub mod Failures
pub mod Tests
