-- ===== src/Ingestion.antt =====
-- apps/ingestion/src: the run of one job over its sources.
pub mod Sources
mod Usage
pub mod Run
mod Process
mod Rows
mod Settled
mod Accounts
mod Billing
mod History
mod Presence
mod Complete
mod Tests
