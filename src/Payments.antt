-- ===== src/Payments.antt =====
-- What a provider pays for: src/services/providerEntitlements.ts and
-- src/services/addonPurchasesV2.ts.
pub mod Platform
pub mod Zips
pub mod Addons
pub mod Ledger
pub mod Leads
pub mod Purchases
pub mod Tests
