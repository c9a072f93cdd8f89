-- ===== src/Quest.antt =====
-- Store quests (apps/api/services/store_service.py): what a completion does to a player's quests.
pub mod Types
pub mod Matching
pub mod Progress
pub mod Revert
pub mod Completion
pub mod Sets
pub mod Counting
pub mod Undo
pub mod Stability
mod Tests
