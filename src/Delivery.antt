-- ===== src/Delivery.antt =====
-- Messages from the API to the bot: the jobs and the claims of
-- apps/api/repository/jobs_repository.py, publishing (apps/api/services/base.py), and the bot's
-- consumer of a queue (apps/bot/extensions/_queue_registry.py and rabbit.py).
pub mod Jobs
pub mod Queue
pub mod Claims
pub mod Once
pub mod Draining
pub mod Sending
mod Tests
