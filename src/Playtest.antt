-- ===== src/Playtest.antt =====
-- Playtests of new maps: apps/api/services/playtest_service.py over
-- apps/api/repository/playtest_repository.py.
pub mod Tables
pub mod Repository
pub mod Threads
pub mod Service
pub mod Votes
pub mod Promise
pub mod Approvals
pub mod Decisions
mod Tests
