-- ===== src/Economy/Samples.antt =====
-- Tables for the runs and the instances in Tests: three players, two kinds of key, one rotation and
-- four quest rows.
use genjishimada.Base.{none, some, [], ◌∷◌}
use genjishimada.Base.Int.{pos}
use genjishimada.Base.Text.{codes}
use genjishimada.Quest.Types.{complete_maps, earn_medals, Requirements, EventData, QuestProgress}
use genjishimada.Economy.Tables.{Database, KeyRow, RewardType, RotationItem, QuestRow}

abbrev pub no_progress : QuestProgress
no_progress = record {
  completed_map_ids = none;
  counted_map_ids = none;
  current = none;
  details = none;
  medals = none;
  last_attempt = none;
  best_attempt = none;
  completed = none;
  medal_earned = none;
}

abbrev pub one_map : Requirements
one_map = record {
  type = some complete_maps;
  difficulty = none;
  category = none;
  medal_type = none;
  map_id = none;
  count = some 1;
  min_count = none;
  target_time = none;
  rival_time = none;
}

abbrev pub run_on_nine : EventData
run_on_nine = record {
  map_id = some 9;
  difficulty = some (codes "Hard");
  category = some (codes "Classic");
  time = some (pos 2500);
  medal = none;
}

abbrev pub quest : Requirements → QuestRow
quest r = record {
  user_id = 1;
  rotation_id = 7;
  quest_data = record {
    name = some (codes "Warm up");
    coin_reward = some 100;
    xp_reward = some 50;
    requirements = r;
  };
  progress = no_progress;
  completed_at = none;
  claimed_at = none;
  coins_rewarded = none;
  xp_rewarded = none;
}

abbrev pub spray : RewardType
spray = record {
  name = codes "Spray";
  type = codes "spray";
  rarity = some (codes "Rare");
  key_type = codes "Classic";
}

abbrev pub spray_offer : RotationItem
spray_offer = record {
  rotation_id = 7;
  item_name = codes "Spray";
  item_type = codes "spray";
  key_type = codes "Classic";
  price = pos 400;
  available_from = 10;
  available_until = 90;
}

abbrev pub old_key : KeyRow
old_key = record { user_id = 1; key_type = codes "Classic"; earned_at = 3 }

abbrev pub shop : Database
shop = record {
  users = (1, pos 2000) ∷ (2, pos 10) ∷ (3, pos 0) ∷ [];
  xp = (1, 450) ∷ [];
  key_types = codes "Classic" ∷ codes "Winter" ∷ [];
  reward_types = spray ∷ [];
  user_keys = record { user_id = 1; key_type = codes "Classic"; earned_at = 5 } ∷ old_key ∷ [];
  user_rewards =
      record {
        user_id = 2;
        reward_name = codes "Spray";
        reward_type = codes "spray";
        key_type = codes "Classic";
      }
      ∷ [];
  active_key = some (codes "Classic");
  xp_multiplier = some 150;
  rotations = spray_offer ∷ [];
  active_key_type = codes "Classic";
  purchases = [];
  current_rotation_id = 7;
  quests =
      (21, quest one_map)
      ∷ (22, quest (record one_map { type = some earn_medals }))
      ∷ (23, record (quest one_map) { completed_at = some 5 })
      ∷ (24, record (quest one_map) { user_id = 2 })
      ∷ [];
}
