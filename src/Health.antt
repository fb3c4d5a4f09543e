-- ===== src/Health.antt =====
-- internal/ems/health/health.go: the tracker that folds the status of the components into one
-- health state and announces changes to its subscribers.
pub mod Tracker
mod Tests
