-- ===== src/Exchange.antt =====
-- The exchange of contact details between the two sides of a job: src/routes/contactExchange.ts.
pub mod Model
pub mod Handlers
pub mod Rules
pub mod Steps
pub mod Serving
pub mod OnePending
pub mod Privacy
pub mod Gate
pub mod Tests
