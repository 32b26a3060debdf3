-- ===== src/Pipeline.antt =====
-- apps/ingestion/src/ingestion/pipeline.ts: the batches of one source.
mod Artifacts
mod Batch
mod Windows
mod Ingest
mod Counts
mod Purge
mod Plan
mod Once
mod History
mod Retry
mod Edges
mod Keys
mod Graph
mod Tests
