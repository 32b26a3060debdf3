-- ===== src/Chunking.antt =====
-- The chunkers of the ingestion worker. A text is the list of its UTF-16 code units.
pub mod Text
pub mod Parts
pub mod Bounds
pub mod Kept
pub mod Conversation
pub mod Windows
pub mod KeptText
pub mod KeptTurns
mod Tests
