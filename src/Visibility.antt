-- ===== src/Visibility.antt =====
-- Visibility groups and grants: who sees whose memories within an org.
pub mod Graph
pub mod Search
pub mod Store
pub mod Service
pub mod Rows
pub mod Adjacency
pub mod Closure
pub mod Acyclic
pub mod Preview
pub mod History
mod Tests
