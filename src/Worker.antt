-- ===== src/Worker.antt =====
-- internal/ems/worker: restarts of containers, the delays between restarts, and the supervisor.
pub mod Backoff
pub mod Supervisor
pub mod Lifecycle
mod Tests
