-- ===== src/Delivery.antt =====
-- The ingestion worker's queue consumer: what becomes of each delivery of a job.
pub mod Consumer
pub mod Durable
pub mod Chain
mod Tests
