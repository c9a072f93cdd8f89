-- ===== src/Economy/Lootbox.antt =====
-- `LootboxService` of apps/api/services/lootbox_service.py: opening a lootbox, granting a reward,
-- granting experience.
pub mod Tiers
pub mod TierLaws
use genjishimada.Base.{
  ℕ, zero, suc, ◌%◌, Bool, true, false, not, ◌&&◌, Option, none, some, List, [], ◌∷◌, ◌++◌, ltb,
  get_or, if◌then◌else◌,
}
use genjishimada.Base.Int.{ℤ, pos}
use genjishimada.Base.Lists.{filter, any, find?, length}
use genjishimada.Base.Text.{Text, codes, text_eq, lower, int_of_text}
use genjishimada.Quest.Types.{is_truthy}
use genjishimada.Economy.Tables.{Database, RewardType}
use genjishimada.Economy.Action.{
  Action, insufficient_keys, value_error, pure, gets, or_raise, modify, raise_if, ◌>>=◌, ◌>>◌,
}
use genjishimada.Economy.LootboxRepository.{
  XpChange, fetch_xp_multiplier, delete_oldest_user_key, is_reward, check_user_has_reward,
  insert_user_reward, add_user_coins, upsert_user_xp,
}

-- `DUPLICATE_COIN_VALUES.get(rarity, 0)`
unfoldable pub duplicate_coin_value : Text → ℕ
duplicate_coin_value r =
    if text_eq r (codes "common")
    then 100
    else if text_eq r (codes "rare")
    then 250
    else if text_eq r (codes "epic")
    then 500
    else if text_eq r (codes "legendary")
    then 1000
    else 0

pub record RewardResponse : Type 0 where
  pub name : Text
  pub key_type : Text
  pub rarity : Option Text
  pub type : Text
  pub duplicate : Bool
  pub coin_amount : ℤ

-- `fetch_all_rewards` by type and key, then the rarity of the first row of that name, or "common".
abbrev pub rarity_of_first : Option RewardType → Option Text
rarity_of_first none = some (codes "common")
rarity_of_first (some row) = row.rarity

abbrev pub rarity_val : Text → Text → Text → Database → Option Text
rarity_val t k n db = rarity_of_first (
    find? (λ (r : RewardType). text_eq n r.name)
      (filter (λ (r : RewardType). text_eq t r.type && text_eq k r.key_type) db.reward_types))

abbrev pub grant_coins : Text → Text → Text → ℤ → ℕ → Action RewardResponse
grant_coins t k n x u = do
  modify (add_user_coins u x)
  r ← gets (rarity_val t k n)
  pure (record { name = n; key_type = k; rarity = r; type = t; duplicate = false; coin_amount = x })

abbrev pub grant_duplicate : Text → Text → Text → Option Text → ℕ → Action RewardResponse
grant_duplicate t k n rarity u =
    let x = pos (duplicate_coin_value (lower (get_or rarity []))) in
    do
      modify (add_user_coins u x)
      pure (record {
        name = n;
        key_type = k;
        rarity = rarity;
        type = t;
        duplicate = true;
        coin_amount = x;
      })

abbrev pub grant_new : Text → Text → Text → ℕ → Action RewardResponse
grant_new t k n u = do
  insert_user_reward u t k n
  r ← gets (rarity_val t k n)
  pure (record {
    name = n;
    key_type = k;
    rarity = r;
    type = t;
    duplicate = false;
    coin_amount = pos 0;
  })

-- `grant_reward_to_user`, within its transaction
unfoldable pub grant_reward_to_user : ℕ → Text → Text → Text → Action RewardResponse
unfolding add_user_coins insert_user_reward
grant_reward_to_user u t k n =
    if text_eq t (codes "coins")
    then (do x ← or_raise (int_of_text n) value_error; grant_coins t k n x u)
    else (do
      rarity ← gets (check_user_has_reward u t k n)
      if is_truthy rarity then grant_duplicate t k n rarity u else grant_new t k n u)

-- `_perform_gacha`: `random.choices` over GACHA_WEIGHTS, whose running sums are 3, 8, 33 and 98.
-- `roll` is the random number times 98, rounded down.
unfoldable pub perform_gacha : ℕ → Text
perform_gacha roll =
    if ltb roll 3
    then codes "legendary"
    else if ltb roll 8
    then codes "epic"
    else if ltb roll 33
    then codes "rare"
    else codes "common"

-- The random numbers of one draw: the roll for the rarity, and the row that `ORDER BY random()
-- LIMIT 1` puts first among the candidates.
pub record Draw : Type 0 where
  pub roll : ℕ
  pub pick : ℕ

abbrev pub nth : List RewardType → ℕ → Option RewardType
nth [] i = none
nth (x ∷ xs) zero = some x
nth (x ∷ xs) (suc i) = nth xs i

abbrev pub candidates : Text → Text → List RewardType → List RewardType
candidates r k rows =
    filter (λ (x : RewardType). text_eq r (get_or x.rarity []) && text_eq k x.key_type) rows

-- The row that `fetch_random_reward` selects, if it has candidates.
unfoldable pub fetch_random_reward : Text → Text → ℕ → Database → Option RewardType
fetch_random_reward r k pick db =
    let rows = candidates r k db.reward_types in nth rows (pick % length rows)

abbrev pub shown : ℕ → Text → RewardType → Database → RewardResponse
shown u k row db =
    let owned = any (is_reward u row.type k row.name) db.user_rewards in
    record {
      name = row.name;
      key_type = k;
      rarity = row.rarity;
      type = row.type;
      duplicate = owned;
      coin_amount = pos (if owned then duplicate_coin_value (get_or row.rarity []) else 0);
    }

-- One round of the loop: a draw with no candidate shows nothing.
unfoldable pub show_draw : ℕ → Text → Database → Draw → List RewardResponse
unfolding perform_gacha fetch_random_reward
show_draw u k db d = elim (fetch_random_reward (perform_gacha d.roll) k d.pick db) [
  | none ↦ []
  | some row ↦ shown u k row db ∷ []
]

-- `get_random_items`, within its transaction, at the random numbers of its three draws.
unfoldable pub get_random_items :
    ℕ → Text → Bool → Draw → Draw → Draw → Action (List RewardResponse)
unfolding delete_oldest_user_key
get_random_items u k test_mode d1 d2 d3 = do
  deleted ← (if test_mode then pure true else delete_oldest_user_key u k)
  raise_if (not deleted) insufficient_keys
  gets (λ db. show_draw u k db d1 ++ show_draw u k db d2 ++ show_draw u k db d3)

-- The event that `grant_xp` builds for `api.xp.grant`.
pub record XpGrantEvent : Type 0 where
  pub user_id : ℕ
  pub amount : ℕ
  pub previous_amount : ℕ
  pub new_amount : ℕ

-- `grant_xp` with `pending_events`, which is returned longer by the event.
unfoldable pub grant_xp : ℕ → ℕ → List XpGrantEvent → Action (XpChange × List XpGrantEvent)
unfolding upsert_user_xp
grant_xp u amount pending = do
  multiplier ← gets fetch_xp_multiplier
  change ← upsert_user_xp u amount multiplier
  let event : XpGrantEvent = record {
    user_id = u;
    amount = amount;
    previous_amount = change.previous_amount;
    new_amount = change.new_amount;
  }
  pure (change, pending ++ (event ∷ []))
