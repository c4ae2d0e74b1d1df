-- ===== src/Notifications.antt =====
-- When a user may be notified: src/services/notificationPreferences.ts.
pub mod Preferences
pub mod QuietHours
pub mod Tests
