-- ===== src/Economy/Tables.antt =====
-- The tables of the schemas core, lootbox and store that the economy reads and writes
-- (apps/api/migrations/0001_init.sql, 0013_coin_store.sql, 0014_quests_system.sql). Identifiers
-- and moments are numbers; a balance is an integer, and the bounds of PostgreSQL's integers are
-- left out.
use genjishimada.Base.{ℕ, Option, List}
use genjishimada.Base.Dict.{Dict}
use genjishimada.Base.Int.{ℤ}
use genjishimada.Base.Text.{Text}
use genjishimada.Quest.Types.{Requirements, QuestProgress}

-- lootbox.user_keys
pub record KeyRow : Type 0 where
  pub user_id : ℕ
  pub key_type : Text
  pub earned_at : ℕ

-- lootbox.reward_types
pub record RewardType : Type 0 where
  pub name : Text
  pub type : Text
  pub rarity : Option Text
  pub key_type : Text

-- lootbox.user_rewards
pub record UserReward : Type 0 where
  pub user_id : ℕ
  pub reward_name : Text
  pub reward_type : Text
  pub key_type : Text

-- store.rotations
pub record RotationItem : Type 0 where
  pub rotation_id : ℕ
  pub item_name : Text
  pub item_type : Text
  pub key_type : Text
  pub price : ℤ
  pub available_from : ℕ
  pub available_until : ℕ

pub data PurchaseType : Type 0 where
  key item : PurchaseType

-- store.purchases
pub record Purchase : Type 0 where
  pub user_id : ℕ
  pub purchase_type : PurchaseType
  pub item_name : Option Text
  pub item_type : Option Text
  pub key_type : Text
  pub quantity : ℕ
  pub price_paid : ℤ
  pub rotation_id : Option ℕ

-- The `quest_data` of a progress row, as far as the services read it.
pub record QuestData : Type 0 where
  pub name : Option Text
  pub coin_reward : Option ℕ
  pub xp_reward : Option ℕ
  pub requirements : Requirements

-- store.user_quest_progress, keyed by its id
pub record QuestRow : Type 0 where
  pub user_id : ℕ
  pub rotation_id : ℕ
  pub quest_data : QuestData
  pub progress : QuestProgress
  pub completed_at : Option ℕ
  pub claimed_at : Option ℕ
  pub coins_rewarded : Option ℕ
  pub xp_rewarded : Option ℕ

-- `users` is core.users, from the id to the coins, and `xp` is lootbox.xp. The multiplier is in
-- hundredths, as its column numeric(4, 2).
pub record Database : Type 0 where
  pub users : Dict ℤ
  pub xp : Dict ℕ
  pub key_types : List Text
  pub reward_types : List RewardType
  pub user_keys : List KeyRow
  pub user_rewards : List UserReward
  pub active_key : Option Text
  pub xp_multiplier : Option ℕ
  pub rotations : List RotationItem
  pub active_key_type : Text
  pub purchases : List Purchase
  pub current_rotation_id : ℕ
  pub quests : Dict QuestRow
