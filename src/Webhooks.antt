-- ===== src/Webhooks.antt =====
-- The queue of webhook events and their delivery: src/webhooks/enqueue.ts, src/webhooks/worker.ts.
pub mod Model
pub mod State
pub mod Backoff
pub mod Worker
pub mod Loop
pub mod Keeps
pub mod Delivering
pub mod Candidates
pub mod CallRules
pub mod Claims
pub mod Invariants
pub mod Delays
pub mod Enqueue
pub mod Running
pub mod Traffic
mod Tests
