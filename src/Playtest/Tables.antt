-- ===== src/Playtest/Tables.antt =====
-- The tables behind playtests, from apps/api/migrations/0001_init.sql, and the columns of
-- core.maps and core.completions that they use. Difficulties are in hundredths, the precision of
-- their columns.
use genjishimada.Base.{ℕ, Bool, Option, List}
use genjishimada.Base.Dict.{Dict}
use genjishimada.Base.Text.{Text}

-- The type playtest_status.
pub data Status : Type 0 where
  approved : Status
  in_progress : Status
  rejected : Status

pub record Map : Type 0 where
  pub code : Text
  pub playtesting : Status
  pub hidden : Bool
  pub raw_difficulty : ℕ
  pub difficulty : Text

pub record Creator : Type 0 where
  pub map_id : ℕ
  pub user_id : ℕ
  pub is_primary : Bool

pub record Meta : Type 0 where
  pub id : ℕ
  pub thread_id : Option ℕ
  pub map_id : ℕ
  pub verification_id : Option ℕ
  pub initial_difficulty : ℕ
  pub created_at : ℕ
  pub completed : Bool

pub record Vote : Type 0 where
  pub user_id : ℕ
  pub map_id : ℕ
  pub playtest_thread_id : ℕ
  pub difficulty : ℕ

pub record Completion : Type 0 where
  pub map_id : ℕ
  pub user_id : ℕ
  pub verified : Bool
  pub legacy : Bool
  pub inserted_at : ℕ

pub record Playtests : Type 0 where
  pub maps : Dict Map
  pub creators : List Creator
  pub meta : List Meta
  pub votes : List Vote
  pub completions : List Completion

-- The exceptions of apps/api/services/exceptions/playtest.py, PostgreSQL's violations that the
-- service does not catch, and Python's ValueError.
pub data PlaytestError : Type 0 where
  playtest_not_found : ℕ → PlaytestError
  vote_not_found : ℕ → ℕ → PlaytestError
  vote_constraint : PlaytestError
  no_votes : PlaytestError
  code_not_found : PlaytestError
  creator_not_found : PlaytestError
  numeric_out_of_range : PlaytestError
  unique_violation : PlaytestError
  foreign_key_violation : PlaytestError
  value_error : PlaytestError
  key_error : PlaytestError
  invalid_patch : PlaytestError
  undefined_column : PlaytestError
