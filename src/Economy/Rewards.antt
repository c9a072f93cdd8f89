-- ===== src/Economy/Rewards.antt =====
-- Granting a reward, as an item or as coins, and granting experience.
use genjishimada.Base.{
  ℕ, ◌+◌, ◌*◌, ◌/◌, ◌≤◌, ◌<◌, ◌≡◌, ◌≢◌, refl, Bool, true, false, some, List, [], ◌∷◌, ◌++◌, arith,
  get_or, if◌then◌else◌, leb,
}
use genjishimada.Base.Dict.{lookup, insert, contains, lookup-insert_self}
use genjishimada.Base.Int.{ℤ, pos, ◌+ℤ◌}
use genjishimada.Base.Lists.{length, filter, any, find?}
use genjishimada.Base.Text.{Text, codes, text_eq, text_eq_refl, lower}
use genjishimada.Economy.Tables.{Database, UserReward}
use genjishimada.Economy.Action.{ok}
use genjishimada.Economy.LootboxRepository.{
  is_reward, is_reward_type, rarity_of, fetch_xp_multiplier, update_xp_multiplier,
}
use genjishimada.Economy.Lootbox.{
  RewardResponse, XpGrantEvent, duplicate_coin_value, rarity_val, grant_reward_to_user, grant_xp,
}

-- How often a user has a reward.
abbrev pub owned_count : ℕ → Text → Text → Text → Database → ℕ
owned_count u t k n db = length (filter (is_reward u t k n) db.user_rewards)

any-count :
    (p : UserReward → Bool) (rows : List UserReward)
    → any p rows ≡ (if leb 1 (length (filter p rows)) then true else false)
any-count p [] = refl
any-count p (row ∷ rows) = ground (arith, any-count p rows)

-- Granting an item to a user who has it already adds no second one: for a reward with a rarity the
-- user gets the coins of that rarity instead, is told so, and the rewards stay as they are.
pub grant_reward_duplicate :
    (u : ℕ) (t k n : Text) (rarity : Text) (coins : ℤ) (db : Database)
    → text_eq t (codes "coins") ≡ false
    → 1 ≤ owned_count u t k n db
    → rarity_of (find? (is_reward_type t k n) db.reward_types) ≡ some rarity
    → rarity ≢ []
    → lookup u db.users ≡ some coins
    → let x = pos (duplicate_coin_value (lower rarity)) in
      (r : RewardResponse) × (db' : Database) × (grant_reward_to_user u t k n db ≡ ok (r, db'))
      × (r.duplicate ≡ true)
      × (r.coin_amount ≡ x)
      × (lookup u db'.users ≡ some (coins +ℤ x))
      × (db'.user_rewards ≡ db.user_rewards)
unfolding grant_reward_to_user
grant_reward_duplicate u t k n rarity coins db item has known named funds =
    let x = pos (duplicate_coin_value (lower rarity)) in
    (
      record {
        name = n;
        key_type = k;
        rarity = some rarity;
        type = t;
        duplicate = true;
        coin_amount = x;
      },
      record db { users = insert u (coins +ℤ x) db.users },
      ground (arith, any-count (is_reward u t k n) db.user_rewards),
      refl,
      refl,
      lookup-insert_self u (coins +ℤ x) db.users,
      refl,
    )

-- Granting an item that a known user does not have adds it exactly once and changes no balance.
pub grant_reward_new :
    (u : ℕ) (t k n : Text) (db : Database)
    → text_eq t (codes "coins") ≡ false
    → owned_count u t k n db ≡ 0
    → contains u db.users ≡ true
    → any (is_reward_type t k n) db.reward_types ≡ true
    → (r : RewardResponse) × (db' : Database) × (grant_reward_to_user u t k n db ≡ ok (r, db'))
      × (r.duplicate ≡ false)
      × (owned_count u t k n db' ≡ 1)
      × (db'.users ≡ db.users)
unfolding grant_reward_to_user
grant_reward_new u t k n db item fresh user kind =
    let row : UserReward = record { user_id = u; reward_name = n; reward_type = t; key_type = k } in
    let db' : Database = record db { user_rewards = row ∷ db.user_rewards } in
    (
      record {
        name = n;
        key_type = k;
        rarity = rarity_val t k n db';
        type = t;
        duplicate = false;
        coin_amount = pos 0;
      },
      db',
      ground (arith, any-count (is_reward u t k n) db.user_rewards),
      refl,
      ground (arith, fresh, text_eq_refl t, text_eq_refl k, text_eq_refl n),
      refl,
    )

-- A grant to a known user adds the amount times the multiplier, rounded down, to the experience,
-- and the one event that it leaves to be published carries the amounts before and after.
pub grant_xp_adds :
    (u amount : ℕ) (pending : List XpGrantEvent) (db : Database)
    → contains u db.users ≡ true
    → let old = get_or (lookup u db.xp) 0 in
      let new = old + amount * fetch_xp_multiplier db / 100 in
      (db' : Database) × (grant_xp u amount pending db
        ≡ ok (
          (
            record { previous_amount = old; new_amount = new },
            pending
                ++ (record { user_id = u; amount = amount; previous_amount = old; new_amount = new }
                    ∷ []),
          ),
          db',
        ))
      × (lookup u db'.xp ≡ some new)
unfolding grant_xp
grant_xp_adds u amount pending db known =
    let new = get_or (lookup u db.xp) 0 + amount * fetch_xp_multiplier db / 100 in
    (record db { xp = insert u new db.xp }, ground arith, lookup-insert_self u new db.xp)

-- Setting the multiplier to 0 does not stop the grants: they are made as if it were 1.00. Any other
-- multiplier is the one that is read afterwards, where the table has its row.
pub xp_multiplier_zero_ignored :
    (m old : ℕ) (db : Database)
    → db.xp_multiplier ≡ some old
    → 0 < m
    → (fetch_xp_multiplier (update_xp_multiplier 0 db) ≡ 100)
      × (fetch_xp_multiplier (update_xp_multiplier m db) ≡ m)
unfolding update_xp_multiplier
xp_multiplier_zero_ignored m old db row positive = ground arith
