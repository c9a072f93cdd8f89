-- ===== src/Tournament/Tables.antt =====
-- The tables of the schema tournaments that rewards and the outbox read and write
-- (apps/api/migrations/0020_tournaments.sql, 0022_tournament_xp_grants.sql,
-- 0024_tournament_editions_overhaul.sql, 0025_verification_aware_tournament_results.sql), beside the
-- tables of the economy. Times are in hundredths, as their columns.
use genjishimada.Base.{ℕ, Bool, Option, List}
use genjishimada.Base.Dict.{Dict}
use genjishimada.Base.Text.{Text}
use genjishimada.Economy.Tables.{Database}

-- tournaments.categories, as far as rewards read it: a tier is a place, or a threshold, and its XP
pub record Category : Type 0 where
  pub participation_xp : ℕ
  pub placement_xp : List (ℕ × ℕ)
  pub streak_xp : List (ℕ × ℕ)

-- The reasons that the ledger admits.
pub data Reason : Type 0 where
  participation placement streak : Reason

-- tournaments.xp_grants
pub record Grant : Type 0 where
  pub cycle_id : ℕ
  pub user_id : ℕ
  pub reason : Reason
  pub amount : ℕ

-- tournaments.streaks, keyed by the user
pub record Streak : Type 0 where
  pub current_streak : ℕ
  pub max_streak : ℕ
  pub last_cycle_id : Option ℕ

pub data CycleStatus : Type 0 where
  pending active finalizing completed : CycleStatus

-- tournaments.cycles, keyed by its id
pub record Cycle : Type 0 where
  pub category_id : ℕ
  pub edition_id : ℕ
  pub status : CycleStatus

pub data EditionStatus : Type 0 where
  active awaiting_results completed : EditionStatus

-- tournaments.editions, keyed by its id
pub record Edition : Type 0 where
  pub status : EditionStatus
  pub start_announced : Bool
  pub ends_at : ℕ

pub data RunStatus : Type 0 where
  pending verified rejected : RunStatus

-- tournaments.completions; the column `verified` is generated, `status = 'verified'`.
pub record Completion : Type 0 where
  pub cycle_id : ℕ
  pub user_id : ℕ
  pub time : ℕ
  pub completion : Bool
  pub status : RunStatus
  pub inserted_at : ℕ

-- A standing, and the event of a finished cycle.
pub record Standing : Type 0 where
  pub rank : ℕ
  pub user_id : ℕ
  pub time : ℕ
  pub verified : Bool
  pub completion : Bool

pub record CycleCompleted : Type 0 where
  pub cycle_id : ℕ
  pub category_id : ℕ
  pub standings : List Standing
  pub winner_user_id : Option ℕ

-- The event types that the poller knows; the older ones raise, and are left out. A type has one
-- routing key.
pub data TransitionType : Type 0 where
  edition_rollover edition_results : TransitionType

-- tournaments.pending_transitions, keyed by its id, with the decoded payload
pub record Transition : Type 0 where
  pub event_type : TransitionType
  pub edition_id : ℕ
  pub results : List CycleCompleted
  pub published : Bool

-- A message to RabbitMQ, without the cards of the cycles that start.
pub record Message : Type 0 where
  pub event_type : TransitionType
  pub edition_id : ℕ
  pub results : List CycleCompleted
  pub results_pending : Bool
  pub idempotency_key : Text

-- `messages` are those that were published, the latest first, and `next_transition_id` is the
-- sequence behind the identity column.
pub record Tournaments : Type 0 where
  pub economy : Database
  pub categories : Dict Category
  pub cycles : Dict Cycle
  pub editions : Dict Edition
  pub completions : List Completion
  pub xp_grants : List Grant
  pub streaks : Dict Streak
  pub transitions : Dict Transition
  pub next_transition_id : ℕ
  pub messages : List Message
