-- ===== src/Economy/Claims.antt =====
-- Claiming the reward of a quest.
use genjishimada.Base.{ℕ, ◌≡◌, true, false, some, arith, get_or}
use genjishimada.Base.Dict.{lookup, lookup-insert}
use genjishimada.Base.Int.{ℤ, pos, ◌+ℤ◌}
use genjishimada.Economy.Tables.{Database, QuestRow}
use genjishimada.Economy.Action.{ok, err, quest_already_claimed, transaction}
use genjishimada.Economy.StoreRepository.{update_row}
use genjishimada.Economy.Quests.{
  is_claimable, claimed_row, claim_transaction, grant_claimed_xp, claim_quest, refusal, give_coins,
}
use genjishimada.Economy.QuestRows.{lookup-update_row}

-- A grant of experience changes no quest row and no balance.
grant_claimed_xp-keeps :
    (u x : ℕ) (db : Database)
    → let after = (transaction (grant_claimed_xp u x) db).1 in
      (after.quests ≡ db.quests) × (after.users ≡ db.users)
unfolding grant_claimed_xp
grant_claimed_xp-keeps u x db = ground arith

-- What has become of the tables when the claim itself succeeded.
abbrev claimed_tables : ℕ → ℕ → ℕ → QuestRow → Database → Database
claimed_tables now u i row db =
    give_coins u (get_or row.quest_data.coin_reward 0)
      (record db { quests = update_row i (claimed_row now) db.quests })

claim_transaction-claimable :
    (now u i : ℕ) (db : Database) (row : QuestRow)
    → lookup i db.quests ≡ some row
    → is_claimable u row ≡ true
    → claim_transaction now u i db ≡ ok (claimed_row now row, claimed_tables now u i row db)
unfolding claim_transaction
claim_transaction-claimable now u i db row found fits = ground arith

-- A claim that the row does not admit raises the error that fits it, and changes nothing.
pub claim_quest_refused :
    (now u i : ℕ) (db : Database) (row : QuestRow)
    → lookup i db.quests ≡ some row
    → is_claimable u row ≡ false
    → claim_quest now u i db ≡ (err (refusal u (some row)), db)
unfolding claim_quest claim_transaction
claim_quest_refused now u i db row found refused = ground arith

claim_quest-claimable :
    (now u i : ℕ) (db : Database) (row : QuestRow) (coins : ℤ)
    → lookup i db.quests ≡ some row
    → is_claimable u row ≡ true
    → lookup u db.users ≡ some coins
    → let after = (claim_quest now u i db).1 in
      (lookup i after.quests ≡ some (claimed_row now row))
      × (lookup u after.users ≡ some (coins +ℤ pos (get_or row.quest_data.coin_reward 0)))
unfolding claim_quest
claim_quest-claimable now u i db row coins found fits funds =
    let x = get_or row.quest_data.coin_reward 0 in
    ground (
      arith,
      claim_transaction-claimable now u i db row found fits,
      grant_claimed_xp-keeps u (get_or row.quest_data.xp_reward 0) (claimed_tables now u i row db),
      lookup-update_row i i (claimed_row now) db.quests,
      lookup-insert u u (coins +ℤ pos x) db.users,
    )

-- A completed quest pays once: the first claim marks the row and adds exactly its coins to the
-- player's balance, and every later claim of it raises QuestAlreadyClaimedError and changes
-- nothing.
pub claim_quest_once :
    (now later u i : ℕ) (db : Database) (row : QuestRow) (coins : ℤ)
    → lookup i db.quests ≡ some row
    → is_claimable u row ≡ true
    → lookup u db.users ≡ some coins
    → let after = (claim_quest now u i db).1 in
      (lookup u after.users ≡ some (coins +ℤ pos (get_or row.quest_data.coin_reward 0)))
      × (lookup i after.quests ≡ some (claimed_row now row))
      × (claim_quest later u i after ≡ (err quest_already_claimed, after))
claim_quest_once now later u i db row coins found fits funds =
    let (marked, paid) = claim_quest-claimable now u i db row coins found fits funds in
    let after = (claim_quest now u i db).1 in
    (paid, marked, ground (arith, claim_quest_refused later u i after (claimed_row now row) marked))
