-- ===== src/Quest/Tests.antt =====
-- Runs of the quest code of apps/api/services/store_service.py, and instances of the theorems about
-- it.
use genjishimada.Base.{◌≡◌, refl, true, none, some, [], ◌∷◌}
use genjishimada.Base.Int.{pos}
use genjishimada.Base.Text.{codes, lower}
use genjishimada.Quest.Types.{
  complete_maps, complete_difficulty_range, beat_rival, completion, Requirements, EventData,
  QuestProgress,
}
use genjishimada.Quest.Matching.{event_matches_quest, match_complete_maps}
use genjishimada.Quest.Progress.{calculate_new_progress}
use genjishimada.Quest.Revert.{calculate_reverted_progress}
use genjishimada.Quest.Completion.{is_quest_complete}
use genjishimada.Quest.Counting.{
  Counts, calculate_new_progress-Counts, calculate_reverted_progress-Counts,
}

abbrev two_hard_maps : Requirements
two_hard_maps = record {
  type = some complete_maps;
  difficulty = some (codes "hard");
  category = none;
  medal_type = none;
  map_id = none;
  count = some 2;
  min_count = none;
  target_time = none;
  rival_time = none;
}

abbrev hard_range : Requirements
hard_range = record two_hard_maps { type = some complete_difficulty_range; min_count = some 2 }

abbrev rival : Requirements
rival = record two_hard_maps {
  type = some beat_rival;
  target_time = some (pos 3000);
  rival_time = some (pos 3000);
}

abbrev run_on_nine : EventData
run_on_nine = record {
  map_id = some 9;
  difficulty = some (codes "Hard");
  category = some (codes "Classic");
  time = some (pos 2500);
  medal = none;
}

abbrev one_map : QuestProgress
one_map = record {
  completed_map_ids = some (some 4 ∷ []);
  counted_map_ids = none;
  current = some 1;
  details = some ((codes "hard", 1) ∷ []);
  medals = none;
  last_attempt = none;
  best_attempt = none;
  completed = none;
  medal_earned = none;
}

hard_run_matches : event_matches_quest two_hard_maps completion run_on_nine ≡ true
unfolding event_matches_quest match_complete_maps lower
hard_run_matches = refl

second_map_completes :
    is_quest_complete (calculate_new_progress one_map two_hard_maps run_on_nine) two_hard_maps
    ≡ true
unfolding is_quest_complete calculate_new_progress lower
second_map_completes = refl

calculate_new_progress-Counts_example :
    Counts (some complete_maps) (calculate_new_progress one_map two_hard_maps run_on_nine)
calculate_new_progress-Counts_example =
    calculate_new_progress-Counts one_map two_hard_maps run_on_nine ((refl, tt), refl)

calculate_reverted_progress-Counts_example : Counts (some complete_maps) (
    calculate_reverted_progress one_map two_hard_maps
      (record run_on_nine { map_id = some 4 })
      []
      [])
calculate_reverted_progress-Counts_example =
    calculate_reverted_progress-Counts one_map two_hard_maps
      (record run_on_nine { map_id = some 4 }) [] [] ((refl, tt), refl)
