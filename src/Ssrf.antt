-- ===== src/Ssrf.antt =====
-- The guard against webhook addresses inside the network: src/utils/ssrfGuard.ts.
pub mod Address
pub mod Blocks
pub mod Guard
pub mod Ranges
pub mod Safe
mod Tests
