-- ===== src/Economy.antt =====
-- Coins, keys, rewards and experience: the tables behind the lootbox and the coin store
-- (apps/api/migrations/0001_init.sql and 0013_coin_store.sql), the repositories over them
-- (apps/api/repository/lootbox_repository.py and store_repository.py) and the services
-- (apps/api/services/lootbox_service.py and store_service.py).
pub mod Tables
pub mod Action
pub mod LootboxRepository
pub mod StoreRepository
pub mod Lootbox
pub mod Store
pub mod Quests
pub mod Prices
pub mod KeyPurchases
pub mod ItemPurchases
pub mod Openings
pub mod Rewards
pub mod CompletionQuests
pub mod QuestRows
pub mod QuestUpdates
pub mod QuestReverts
pub mod Claims
pub mod Samples
mod Tests
mod QuestTests
