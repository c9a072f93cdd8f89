-- ===== src/Lib.antt =====
-- Genji Shimada: the rules of the game behind the community's API.
--
-- The repository holds a REST API (apps/api), a Discord bot (apps/bot) and the types that they
-- share (libs/sdk). Requests reach a service (apps/api/services), which decides, and a repository
-- (apps/api/repository), which runs SQL on PostgreSQL. This library models services together with
-- the statements that they run, as functions on the tables.
--
-- Files, and the code that each one models:
--   Base, Base/*: names of the libraries, Boolean tests, lists, tables with a numeric key, integers
--     and texts. They stand for Python's and SQL's own operations. Base/Rows has the statements on a
--     list of rows, Base/Outcome the calls on a state that may raise.
--   Difficulty, Difficulty/Ranges: libs/sdk/src/genjishimada_sdk/difficulties.py, the two scales of
--     difficulty and the conversions (`convert_raw_difficulty_to_difficulty_all`, ...).
--   Quest/Types, Matching, Progress, Revert, Completion: the functions of
--     apps/api/services/store_service.py on the JSON of one quest (`_event_matches_quest`,
--     `_calculate_new_progress`, `_calculate_reverted_progress`, `_is_quest_complete`,
--     `_auto_patch_progress_for_completion`), and `_compute_medal` of completions_service.py.
--     Quest/Sets, Counting, Undo and Stability prove what holds of them.
--   Economy/Tables: the tables, from the migrations 0001, 0013 and 0014 of apps/api/migrations.
--   Economy/Action: queries that may raise, and transactions.
--   Economy/LootboxRepository, StoreRepository: the statements of
--     apps/api/repository/lootbox_repository.py and store_repository.py, foreign keys included.
--   Economy/Lootbox, Lootbox/Tiers: apps/api/services/lootbox_service.py (`grant_reward_to_user`,
--     `get_random_items`, `grant_xp`) and the tier arithmetic of its repository.
--   Economy/Store, Quests: apps/api/services/store_service.py (`purchase_keys`, `purchase_item`,
--     `update_quest_progress`, `revert_quest_progress`, `claim_quest`).
--   Economy/CompletionQuests: the two functions of apps/api/services/completions_service.py that
--     feed the quests.
--   Economy/Prices, KeyPurchases, ItemPurchases, Openings, Rewards, QuestRows, QuestUpdates,
--     QuestReverts, Claims and Lootbox/TierLaws: proofs.
--   Tournament/Tables, Action: the tables of the tournaments, from the migrations 0020, 0022, 0024 and
--     0025, and calls on them in one transaction.
--   Tournament/Repository, Leaderboard, EditionRepository: the statements of
--     apps/api/repository/tournaments_repository.py (`claim_xp_grant`, `advance_streak`,
--     `fetch_leaderboard`, `complete_edition`, ...).
--   Tournament/Rewards: apps/api/services/tournament_reward_service.py, every award.
--   Tournament/Outbox: apps/api/services/tournament_outbox_service.py, the poll, and
--     `force_publish_results` of tournament_service.py.
--   Tournament/Ledger, Grants, Placements, Streaks, EditionStreaks, StreakReplay, EditionReplay, Keeping,
--     OutboxLedger, Untouched, Editions, Keys, Order, Standings, Listed, Winner: proofs.
--   Auth/Tables: the tables of accounts, from the migrations 0004 and 0006.
--   Auth/Action: a request on them, its clocks, random values and emails.
--   Auth/Validation: the checks of an email, a password and a username in
--     apps/api/services/auth_service.py, their regular expressions written as recursive tests.
--   Auth/Repository, SessionRepository: the statements of apps/api/repository/auth_repository.py.
--   Auth/Limits, Service, SessionService: apps/api/services/auth_service.py, every operation
--     (`check_rate_limit`, `register`, `login`, `verify_email`, `resend_verification`,
--     `request_password_reset`, `confirm_password_reset`, sessions and remember tokens).
--   Auth/Runs: sequences of requests. Auth/Rows, Found, Attempts, RateBounds, Answers, Lockouts,
--     Invariant, Promises, Registrations, Reachable, Masking, FirstSteps, Requests, Resets, Verifications, Sessions,
--     Emails: proofs.
--   Playtest/Tables: the tables of playtests, from the migration 0001, with its checks and its trigger.
--   Playtest/Repository, Threads: the statements of apps/api/repository/playtest_repository.py.
--   Playtest/Service: apps/api/services/playtest_service.py (`cast_vote`, `approve`, `reset`, ...).
--   Playtest/Approvals: what an approval means for the tables, apart from the statements.
--   Playtest/Votes, Promise, Decisions: proofs.
--   Delivery/Jobs: `publish_message` of apps/api/services/base.py, and the jobs of
--     apps/api/repository/jobs_repository.py.
--   Delivery/Queue: the wrapper of `queue_consumer` in apps/bot/extensions/_queue_registry.py, the
--     claims of jobs_repository.py that it calls, and `_wrap_handler` of apps/bot/extensions/rabbit.py.
--   Delivery/Claims, Once, Draining, Sending: proofs.
--   The files called Tests or Samples hold runs and instances on concrete tables.
--
-- How the parts meet. A completion feeds the quests (Economy/CompletionQuests), a claim and a
-- tournament grant experience through the lootbox service (Economy/Lootbox), and a playtest's
-- decision names a difficulty by the scales of Difficulty. Services send messages through
-- Delivery/Jobs, and the bot takes each from its queue through Delivery/Queue.
--
-- How the code is rendered. A request is a function on the record of its tables (`Database`,
-- `Tournaments`, `AuthDb`, `Playtests`). An exception inside a transaction keeps the tables as
-- they were before it: Economy/Action and Tournament/Action give `err` with no tables, and
-- Auth/Action and Base/Outcome carry the tables with the error, since statements outside of a
-- transaction commit one by one. The sequence of user ids keeps what it has given out where a
-- transaction is rolled back. Moments are arguments: `now` is the database's clock and `wall` the
-- service's, where both are read, one moment of each for a request, in seconds for accounts.
-- Random choices are arguments too (the roll and the pick of a draw, tokens and codes), so a
-- statement holds for every outcome. bcrypt, SHA-256 and the random generators are the argument
-- `Crypto` of the account operations, and what a theorem relies on of them stands among its
-- hypotheses. Times, the XP multiplier and difficulties are in hundredths, the precision of their
-- columns, so the floats of the source are integers here; an average of votes is a sum with the
-- number of its terms. A JSON object is a record of optional fields, one for each key that the
-- code reads; `None` and a missing key are both `none`. Texts are lists of code points, with
-- `str.lower()`, `LOWER` and `int()` on ASCII. A Python set is a list without repetition, in some
-- order. Loops run over lists; only the decimal digits of a number (Tournament/Outbox, `decimal`)
-- take fuel, one more than the number, which Tournament/Keys proves to be enough. A handler of the
-- bot is an argument, a function that gives the world it leaves and whether it returned, and so is
-- whether the API answers the release of a claim, PostgreSQL the row of a job and the broker a
-- message.
--
-- What is not modelled. PostgreSQL's bounds on integers, null coins, JSON values of another type
-- than the one that the code expects, and transactions that interleave, nor the handlers of two
-- queues; the deliveries of one queue come one by one, since its prefetch is one. The count of the
-- messages that waited at startup, which the bot keeps for all its queues, is that of one queue
-- here, and a handler that is cancelled is left out. A message of the services counts as published
-- where the code reaches the call; the broker's failure is modelled in Delivery only. HTTP routes
-- and API keys, the map, completion and moderation services, the lifecycle of tournaments, dealing
-- the quests of a rotation, notifications, and the bot's views and commands are left out. So is
-- the average that `get_votes` shows, a float, and the names of voters.
pub mod Base
pub mod Difficulty
pub mod Quest
pub mod Economy
pub mod Tournament
pub mod Auth
pub mod Playtest
pub mod Delivery
