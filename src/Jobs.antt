-- ===== src/Jobs.antt =====
-- The job lifecycle.
pub mod Model
pub mod World
pub mod Rules
pub mod Guards
pub mod Request
pub mod Participants
pub mod Award
pub mod Start
pub mod Completion
pub mod Cancellation
pub mod Disputes
mod Tests
pub mod Lifecycle
pub mod Passing
