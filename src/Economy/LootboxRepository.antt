-- ===== src/Economy/LootboxRepository.antt =====
-- The statements of apps/api/repository/lootbox_repository.py that the services below run.
use genjishimada.Base.{
  ℕ, ◌+◌, ◌*◌, ◌/◌, Bool, true, false, ◌&&◌, Option, none, some, List, [], ◌∷◌, ◌==◌, leb, get_or,
  if◌then◌else◌,
}
use genjishimada.Base.Dict.{lookup, insert, contains}
use genjishimada.Base.Int.{ℤ, pos, ◌+ℤ◌, ◌-ℤ◌, leb_ℤ}
use genjishimada.Base.Lists.{filter, any, find?, length}
use genjishimada.Base.Text.{Text, text_eq}
use genjishimada.Economy.Tables.{Database, KeyRow, RewardType, UserReward}
use genjishimada.Economy.Action.{Action, ok, foreign_key_violation, pure, raise}

-- `fetch_all_key_types(key_type)` finds a row.
abbrev pub key_type_exists : Text → Database → Bool
key_type_exists k db = any (text_eq k) db.key_types

abbrev pub owns_key : ℕ → Text → KeyRow → Bool
owns_key u k row = (u == row.user_id) && text_eq k row.key_type

-- `fetch_user_key_count`
abbrev pub key_count : ℕ → Text → Database → ℕ
key_count u k db = length (filter (owns_key u k) db.user_keys)

-- `fetch_user_coins`
abbrev pub fetch_user_coins : ℕ → Database → ℤ
fetch_user_coins u db = get_or (lookup u db.users) (pos 0)

-- `fetch_xp_multiplier`: no row and the multiplier 0 both read as 1.0.
abbrev pub fetch_xp_multiplier : Database → ℕ
fetch_xp_multiplier db =
    let value = get_or db.xp_multiplier 100 in if value == 0 then 100 else value

-- The oldest key among those of one kind, the first of them where two are as old.
abbrev pub older : KeyRow → Option KeyRow → KeyRow
older row none = row
older row (some other) = if leb row.earned_at other.earned_at then row else other

abbrev pub oldest : ℕ → Text → List KeyRow → Option KeyRow
oldest u k [] = none
oldest u k (row ∷ rows) =
    let rest = oldest u k rows in if owns_key u k row then some (older row rest) else rest

-- Deletes the first row of the kind that was earned at the moment given.
abbrev pub delete_at : ℕ → Text → ℕ → List KeyRow → List KeyRow
delete_at u k t [] = []
delete_at u k t (row ∷ rows) =
    if owns_key u k row && (t == row.earned_at) then rows else row ∷ delete_at u k t rows

-- `delete_oldest_user_key`
unfoldable pub delete_oldest_user_key : ℕ → Text → Action Bool
delete_oldest_user_key u k db = elim (oldest u k db.user_keys) [
  | none ↦ pure false db
  | some row ↦ pure true (record db { user_keys = delete_at u k row.earned_at db.user_keys })
]

abbrev pub is_reward : ℕ → Text → Text → Text → UserReward → Bool
is_reward u t k n row =
    (u == row.user_id)
    && text_eq t row.reward_type
    && text_eq k row.key_type
    && text_eq n row.reward_name

abbrev pub is_reward_type : Text → Text → Text → RewardType → Bool
is_reward_type t k n row = text_eq n row.name && text_eq t row.type && text_eq k row.key_type

abbrev pub rarity_of : Option RewardType → Option Text
rarity_of none = none
rarity_of (some row) = row.rarity

-- `check_user_has_reward`: the join has no row, or its row's rarity, which may be null.
abbrev pub check_user_has_reward : ℕ → Text → Text → Text → Database → Option Text
check_user_has_reward u t k n db =
    if any (is_reward u t k n) db.user_rewards
    then rarity_of (find? (is_reward_type t k n) db.reward_types)
    else none

-- `insert_user_reward`, with the foreign keys of its table
unfoldable pub insert_user_reward : ℕ → Text → Text → Text → Action (Unit {0})
insert_user_reward u t k n db =
    if contains u db.users && any (is_reward_type t k n) db.reward_types
    then pure tt (record db {
      user_rewards =
          record { user_id = u; reward_name = n; reward_type = t; key_type = k } ∷ db.user_rewards;
    })
    else raise foreign_key_violation db

-- `add_user_coins`, an upsert of the user's row
unfoldable pub add_user_coins : ℕ → ℤ → Database → Database
add_user_coins u x db = record db {
  users = insert u (get_or (lookup u db.users) (pos 0) +ℤ x) db.users;
}

-- `deduct_user_coins`
abbrev pub deduct : ℕ → ℤ → Option ℤ → Action (Option ℤ)
deduct u x none db = pure none db
deduct u x (some c) db =
    if leb_ℤ x c
    then pure (some (c -ℤ x)) (record db { users = insert u (c -ℤ x) db.users })
    else pure none db

unfoldable pub deduct_user_coins : ℕ → ℤ → Action (Option ℤ)
deduct_user_coins u x db = deduct u x (lookup u db.users) db

-- `insert_user_key`, with the foreign keys of its table
unfoldable pub insert_user_key : ℕ → ℕ → Text → Action (Unit {0})
insert_user_key now u k db =
    if contains u db.users && key_type_exists k db
    then pure tt (record db {
      user_keys = record { user_id = u; key_type = k; earned_at = now } ∷ db.user_keys;
    })
    else raise foreign_key_violation db

-- `insert_active_key`: nothing is inserted while no key is active.
unfoldable pub insert_active_key : ℕ → ℕ → Action (Unit {0})
unfolding insert_user_key
insert_active_key now u db = elim db.active_key [
  | none ↦ pure tt db
  | some k ↦ insert_user_key now u k db
]

pub record XpChange : Type 0 where
  pub previous_amount : ℕ
  pub new_amount : ℕ

-- `upsert_user_xp`: adds floor(amount * multiplier), the multiplier in hundredths.
unfoldable pub upsert_user_xp : ℕ → ℕ → ℕ → Action XpChange
upsert_user_xp u x multiplier db =
    let previous = get_or (lookup u db.xp) 0 in
    let new = previous + x * multiplier / 100 in
    if contains u db.users
    then ok (
      record { previous_amount = previous; new_amount = new },
      record db { xp = insert u new db.xp },
    )
    else raise foreign_key_violation db

-- `update_xp_multiplier`, which changes the row that is there
unfoldable pub update_xp_multiplier : ℕ → Database → Database
update_xp_multiplier m db = record db {
  xp_multiplier = elim db.xp_multiplier [ none ↦ none | some _ ↦ some m ];
}
