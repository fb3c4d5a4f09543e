-- ===== src/Pm.antt =====
-- internal/ems/fcaps/pm: the measurement engine.
pub mod Engine
mod Tests
