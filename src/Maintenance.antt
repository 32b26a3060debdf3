-- ===== src/Maintenance.antt =====
-- The scheduled sweeps of the API worker.
pub mod Sweep
pub mod Attempts
mod Tests
