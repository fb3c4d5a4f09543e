-- ===== src/Tca.antt =====
-- internal/ems/fcaps/tca: threshold crossing alerts.
pub mod Config
pub mod Engine
pub mod Tests
