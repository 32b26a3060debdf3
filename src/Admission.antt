-- ===== src/Admission.antt =====
-- What an org may do: its plan, its monthly quota, and the gates before an ingestion.
pub mod Entitlements
pub mod Resolve
pub mod Quota
pub mod Preflight
pub mod Gates
mod Tests
