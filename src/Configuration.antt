-- ===== src/Configuration.antt =====
-- internal/ems/configuration: the running and the candidate configuration and their files.
pub mod Values
pub mod Config
pub mod Dirty
pub mod Change
pub mod Validate
pub mod Store
pub mod Files
pub mod Persist
pub mod Render
pub mod Samples
mod Tests
