-- ===== src/Tournament.antt =====
-- The tournaments of the API: rewards, leaderboards and the outbox (tournament_reward_service.py and
-- tournament_outbox_service.py of apps/api/services), with the statements that they run.
pub mod Tables
pub mod Action
pub mod Repository
pub mod Rewards
pub mod Ledger
pub mod Grants
pub mod Placements
pub mod Streaks
pub mod EditionStreaks
pub mod StreakReplay
pub mod EditionReplay
pub mod Leaderboard
pub mod EditionRepository
pub mod Outbox
pub mod OutboxLedger
pub mod Keeping
pub mod Keys
pub mod Order
pub mod Standings
pub mod Listed
pub mod Winner
pub mod Untouched
pub mod Editions
pub mod Samples
mod Tests
