-- ===== src/Economy/Quests.antt =====
-- The quest rows of a player (`StoreService` of apps/api/services/store_service.py): progress on a
-- completion, progress taken back, and claiming the reward.
use genjishimada.Base.{
  ℕ, Bool, true, false, Option, none, some, List, [], ◌∷◌, ◌==◌, ltb, is_some, get_or, not, ◌&&◌,
  if◌then◌else◌,
}
use genjishimada.Base.Dict.{lookup, insert}
use genjishimada.Base.Int.{ℤ, pos, ◌+ℤ◌}
use genjishimada.Base.Text.{Text}
use genjishimada.Quest.Types.{EventType, EventData}
use genjishimada.Quest.Matching.{event_matches_quest}
use genjishimada.Quest.Progress.{calculate_new_progress}
use genjishimada.Quest.Revert.{calculate_reverted_progress}
use genjishimada.Quest.Completion.{is_quest_complete}
use genjishimada.Economy.Tables.{Database, QuestRow}
use genjishimada.Economy.Action.{
  Action, Error, Result, ok, err, quest_not_found, quest_already_claimed, quest_not_completed, pure,
  raise, transaction, ◌>>=◌,
}
use genjishimada.Economy.LootboxRepository.{XpChange}
use genjishimada.Economy.StoreRepository.{
  get_active_user_quests, update_row, update_quest_progress, mark_quest_complete,
}
use genjishimada.Economy.Lootbox.{grant_xp}

-- One round of the loop of `update_quest_progress`: the tables after it, and whether the quest was
-- completed by it.
unfoldable pub advance_quest : ℕ → EventType → EventData → ℕ × QuestRow → Database → Database × Bool
advance_quest now t e (i, row) db =
    let r = row.quest_data.requirements in
    let p = calculate_new_progress row.progress r e in
    let saved = update_quest_progress i p db in
    if is_some row.completed_at
    then (db, false)
    else if not (event_matches_quest r t e)
    then (db, false)
    else if is_quest_complete p r
    then (mark_quest_complete now i saved, true)
    else (saved, false)

-- The loop, over the rows that were read before it; the ids of the quests it completed.
unfoldable pub advance_quests :
    ℕ → EventType → EventData → List (ℕ × QuestRow) → Database → Database × List ℕ
advance_quests now t e [] db = (db, [])
advance_quests now t e (q ∷ qs) db =
    let (db', done) = advance_quest now t e q db in
    let (db'', ids) = advance_quests now t e qs db' in (db'', if done then q.0 ∷ ids else ids)

-- `update_quest_progress`, after `ensure_user_quests_for_rotation` has dealt the quests.
unfoldable pub update_quest_progress_for :
    ℕ → ℕ → EventType → EventData → Database → Database × List ℕ
unfolding advance_quests
update_quest_progress_for now u t e db = advance_quests now t e (get_active_user_quests u db) db

-- One round of the loop of `revert_quest_progress`. Progress that the revert leaves equal is not
-- written, which leaves the row as it was either way.
unfoldable pub revert_quest :
    EventType → EventData → List ℤ → List Text → ℕ × QuestRow → Database → Database
revert_quest t e times medals (i, row) db =
    let r = row.quest_data.requirements in
    if is_some row.completed_at
    then db
    else if not (event_matches_quest r t e)
    then db
    else update_quest_progress i (calculate_reverted_progress row.progress r e times medals) db

unfoldable pub revert_quests :
    EventType → EventData → List ℤ → List Text → List (ℕ × QuestRow) → Database → Database
revert_quests t e times medals [] db = db
revert_quests t e times medals (q ∷ qs) db =
    revert_quests t e times medals qs (revert_quest t e times medals q db)

-- `revert_quest_progress`
unfoldable pub revert_quest_progress :
    ℕ → EventType → EventData → List ℤ → List Text → Database → Database
unfolding revert_quests
revert_quest_progress u t e times medals db =
    revert_quests t e times medals (get_active_user_quests u db) db

abbrev pub is_claimable : ℕ → QuestRow → Bool
is_claimable u row = (u == row.user_id) && is_some row.completed_at && not (is_some row.claimed_at)

abbrev pub claimed_row : ℕ → QuestRow → QuestRow
claimed_row now row = record row {
  claimed_at = some now;
  coins_rewarded = row.quest_data.coin_reward;
  xp_rewarded = row.quest_data.xp_reward;
}

-- The error of a claim whose update changed no row.
abbrev pub refusal : ℕ → Option QuestRow → Error
refusal u none = quest_not_found
refusal u (some row) =
    if not (u == row.user_id)
    then quest_not_found
    else if is_some row.claimed_at
    then quest_already_claimed
    else quest_not_completed

-- `UPDATE core.users SET coins = coins + $2 WHERE id = $1`
abbrev pub give_coins : ℕ → ℕ → Database → Database
give_coins u x db = record db {
  users = elim (lookup u db.users) [ none ↦ db.users | some c ↦ insert u (c +ℤ pos x) db.users ];
}

abbrev pub claim_row : ℕ → ℕ → ℕ → Option QuestRow → Action QuestRow
claim_row now u i none db = raise quest_not_found db
claim_row now u i (some row) db =
    if is_claimable u row
    then pure (claimed_row now row) (
        give_coins u (get_or row.quest_data.coin_reward 0)
          (record db { quests = update_row i (claimed_row now) db.quests }))
    else raise (refusal u (some row)) db

pub record ClaimResponse : Type 0 where
  pub coins_earned : ℕ
  pub xp_change : Option XpChange

-- The transaction of `claim_quest`.
unfoldable pub claim_transaction : ℕ → ℕ → ℕ → Action QuestRow
claim_transaction now u i db = claim_row now u i (lookup i db.quests) db

-- The grant after the transaction, made where there is experience to grant.
unfoldable pub grant_claimed_xp : ℕ → ℕ → Action (Option XpChange)
unfolding grant_xp
grant_claimed_xp u x =
    if ltb 0 x then (do change ← grant_xp u x []; pure (some change.0)) else pure none

abbrev pub claim_response : QuestRow → Option XpChange → ClaimResponse
claim_response row change = record {
  coins_earned = get_or row.coins_rewarded 0;
  xp_change = change;
}

abbrev pub finish_claim :
    QuestRow → Result (Option XpChange) × Database → Result ClaimResponse × Database
finish_claim row (ok change, db) = (ok (claim_response row change), db)
finish_claim row (err e, db) = (err e, db)

abbrev pub grant_after : ℕ → Result QuestRow × Database → Result ClaimResponse × Database
grant_after u (err e, db) = (err e, db)
grant_after u (ok row, db) =
    finish_claim row (transaction (grant_claimed_xp u (get_or row.xp_rewarded 0)) db)

-- `claim_quest`: an error of the grant does not undo the claim.
unfoldable pub claim_quest : ℕ → ℕ → ℕ → Database → Result ClaimResponse × Database
unfolding claim_transaction grant_claimed_xp
claim_quest now u i db = grant_after u (transaction (claim_transaction now u i) db)
