-- ===== src/Tournament/Samples.antt =====
-- A tournament of two cycles for the runs and the instances in Tests: edition 5 has ended with the
-- cycles 11 and 12, and the players 1, 2 and 3 have streaks of earlier editions.
use genjishimada.Base.{true, false, some, ℕ, [], ◌∷◌}
use genjishimada.Economy.Samples.{shop}
use genjishimada.Tournament.Tables.{
  Tournaments, Category, CycleStatus, EditionStatus, Completion, RunStatus, Standing,
  CycleCompleted,
}

abbrev pub category : Category
category = record {
  participation_xp = 10;
  placement_xp = (1, 100) ∷ (2, 50) ∷ [];
  streak_xp = (3, 30) ∷ [];
}

abbrev pub run : ℕ → ℕ → ℕ → RunStatus → Completion
run c u time status = record {
  cycle_id = c;
  user_id = u;
  time = time;
  completion = true;
  status = status;
  inserted_at = time;
}

abbrev pub cup : Tournaments
cup = record {
  economy = shop;
  categories = (7, category) ∷ (8, category) ∷ [];
  cycles =
      (11, record { category_id = 7; edition_id = 5; status = CycleStatus.finalizing })
      ∷ (12, record { category_id = 8; edition_id = 5; status = CycleStatus.finalizing })
      ∷ [];
  editions =
      (5, record { status = EditionStatus.awaiting_results; start_announced = false; ends_at = 90 })
      ∷ [];
  completions =
      run 11 1 1500 RunStatus.verified
      ∷ run 11 2 1400 RunStatus.rejected
      ∷ run 12 1 1700 RunStatus.verified
      ∷ [];
  xp_grants = [];
  streaks =
      (1, record { current_streak = 2; max_streak = 4; last_cycle_id = some 10 })
      ∷ (3, record { current_streak = 6; max_streak = 6; last_cycle_id = some 10 })
      ∷ [];
  transitions = [];
  next_transition_id = 1;
  messages = [];
}

abbrev pub standing : ℕ → ℕ → Standing
standing rank u = record {
  rank = rank;
  user_id = u;
  time = 1500;
  verified = true;
  completion = true;
}

abbrev pub cycle_eleven : CycleCompleted
cycle_eleven = record {
  cycle_id = 11;
  category_id = 7;
  standings = standing 1 1 ∷ standing 2 2 ∷ [];
  winner_user_id = some 1;
}

abbrev pub cycle_twelve : CycleCompleted
cycle_twelve = record {
  cycle_id = 12;
  category_id = 8;
  standings = standing 1 1 ∷ [];
  winner_user_id = some 1;
}
