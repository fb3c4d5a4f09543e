-- ===== src/Alarms.antt =====
-- internal/ems/fcaps/alarms: the alarm store, its manager and the notification queue.
pub mod Types
pub mod Dictionary
pub mod Store
pub mod Manager
pub mod Notifications
pub mod Tests
