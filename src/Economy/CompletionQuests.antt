-- ===== src/Economy/CompletionQuests.antt =====
-- How the completions feed the quests: `_update_quest_progress_for_completion` and
-- `_revert_quest_progress_for_completion` of apps/api/services/completions_service.py, up to the
-- notifications. The map's metadata, its medal thresholds and the times that are still verified
-- are what the queries return.
use genjishimada.Base.{ℕ, ◌≡◌, refl, Option, none, some, List, [], ◌∷◌}
use genjishimada.Base.Dict.{lookup}
use genjishimada.Base.Int.{ℤ}
use genjishimada.Base.Text.{Text}
use genjishimada.Difficulty.{convert_extended_to_top}
use genjishimada.Quest.Types.{EventData, completion, earn_medals}
use genjishimada.Quest.Matching.{MedalThresholds, compute_medal}
use genjishimada.Economy.Tables.{Database, QuestRow}
use genjishimada.Economy.Quests.{update_quest_progress_for, revert_quest_progress}
use genjishimada.Economy.QuestRows.{IsKeyed}
use genjishimada.Economy.QuestReverts.{revert_skips_medal_quests}

-- The row of `fetch_map_metadata_by_code`.
pub record MapMeta : Type 0 where
  pub map_id : ℕ
  pub difficulty : Text
  pub category : Text

-- The `event_data` of a completion that counts.
unfoldable pub update_event : MapMeta → ℤ → Option MedalThresholds → EventData
unfolding compute_medal convert_extended_to_top
update_event meta time thresholds = record {
  map_id = some meta.map_id;
  difficulty = some (convert_extended_to_top meta.difficulty);
  category = some meta.category;
  time = some time;
  medal = compute_medal time thresholds;
}

-- The `event_data` of a completion that no longer counts, which has no "medal".
unfoldable pub revert_event : MapMeta → ℤ → EventData
unfolding convert_extended_to_top
revert_event meta time = record {
  map_id = some meta.map_id;
  difficulty = some (convert_extended_to_top meta.difficulty);
  category = some meta.category;
  time = some time;
  medal = none;
}

abbrev pub with_medal : Option Text → List Text → List Text
with_medal none ms = ms
with_medal (some m) ms = m ∷ ms

-- The medals that the remaining times still earn.
unfoldable pub remaining_medals : Option MedalThresholds → List ℤ → List Text
unfolding compute_medal
remaining_medals h [] = []
remaining_medals h (t ∷ ts) = with_medal (compute_medal t h) (remaining_medals h ts)

-- `_update_quest_progress_for_completion`: without metadata nothing happens.
abbrev pub update_for_meta :
    ℕ → ℕ → ℤ → Option MedalThresholds → Option MapMeta → Database → Database × List ℕ
update_for_meta now u time thresholds none db = (db, [])
update_for_meta now u time thresholds (some meta) db =
    update_quest_progress_for now u completion (update_event meta time thresholds) db

unfoldable pub update_quests_for_completion :
    ℕ → ℕ → ℤ → Option MedalThresholds → Option MapMeta → Database → Database × List ℕ
unfolding update_event
update_quests_for_completion = update_for_meta

-- `_revert_quest_progress_for_completion`
abbrev pub revert_for_meta :
    ℕ → ℤ → Option MedalThresholds → List ℤ → Option MapMeta → Database → Database
revert_for_meta u time thresholds times none db = db
revert_for_meta u time thresholds times (some meta) db =
    revert_quest_progress u completion (revert_event meta time) times
      (remaining_medals thresholds times) db

unfoldable pub revert_quests_for_completion :
    ℕ → ℤ → Option MedalThresholds → List ℤ → Option MapMeta → Database → Database
unfolding revert_event remaining_medals
revert_quests_for_completion = revert_for_meta

-- A completion that loses its verification never moves a medal quest back, also when no time is
-- left that earns a medal: the event names no medal, so no row of the type "earn_medals" matches.
pub revert_keeps_medal_quests :
    (u j : ℕ) (time : ℤ) (thresholds : Option MedalThresholds) (times : List ℤ)
    (meta : Option MapMeta) (db : Database) (row : QuestRow)
    → IsKeyed db.quests
    → lookup j db.quests ≡ some row
    → row.quest_data.requirements.type ≡ some earn_medals
    → lookup j (revert_quests_for_completion u time thresholds times meta db).quests ≡ some row
unfolding revert_quests_for_completion
revert_keeps_medal_quests u j time thresholds times none db row keyed found medal_quest = found
revert_keeps_medal_quests u j time thresholds times (some meta) db row keyed found medal_quest =
    revert_skips_medal_quests completion (revert_event meta time) times
      (remaining_medals thresholds times) u j db row keyed found medal_quest refl
