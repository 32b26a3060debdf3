-- ===== src/Jobs.antt =====
-- The ingestion jobs table and the two workers that share it.
pub mod Row
pub mod Consumer
pub mod PgStore
pub mod Terminal
pub mod Lease
pub mod Active
pub mod Tests
