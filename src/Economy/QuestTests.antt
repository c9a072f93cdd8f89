-- ===== src/Economy/QuestTests.antt =====
-- Runs of the quest services on the tables of Samples, and instances of the theorems about them.
use genjishimada.Base.{ℕ, ◌≡◌, refl, none, some, [], ◌∷◌, ◌&&◌, ◌==◌}
use genjishimada.Base.Dict.{lookup}
use genjishimada.Base.Lists.{any}
use genjishimada.Base.Int.{pos, ◌+ℤ◌}
use genjishimada.Base.Text.{lower}
use genjishimada.Quest.Types.{earn_medals, completion}
use genjishimada.Quest.Matching.{event_matches_quest, match_complete_maps, match_earn_medals}
use genjishimada.Quest.Progress.{calculate_new_progress}
use genjishimada.Quest.Completion.{is_quest_complete}
use genjishimada.Economy.Tables.{Database}
use genjishimada.Economy.Action.{err, quest_already_claimed}
use genjishimada.Economy.StoreRepository.{is_active_quest}
use genjishimada.Economy.Quests.{
  advance_quest, update_quest_progress_for, revert_quest_progress, claim_quest, claimed_row,
}
use genjishimada.Economy.QuestRows.{IsKeyed}
use genjishimada.Economy.QuestUpdates.{
  row_after, completes, update_quest_progress_for-lookup, update_quest_progress_for-listed,
}
use genjishimada.Economy.QuestReverts.{reverted, revert_quest_progress-lookup}
use genjishimada.Economy.CompletionQuests.{revert_quests_for_completion, revert_keeps_medal_quests}
use genjishimada.Economy.Claims.{claim_quest_once}
use genjishimada.Economy.Samples.{one_map, run_on_nine, quest, shop}

abbrev shop-IsKeyed : IsKeyed shop.quests
shop-IsKeyed = (refl, (refl, (refl, (refl, tt))))

first_quest_completed : (update_quest_progress_for 50 1 completion run_on_nine shop).1 ≡ 21 ∷ []
unfolding update_quest_progress_for advance_quest event_matches_quest match_complete_maps
    match_earn_medals is_quest_complete calculate_new_progress lower
first_quest_completed = refl

update_quest_progress_for-lookup_example :
    lookup 21 (update_quest_progress_for 50 1 completion run_on_nine shop).0.quests
    ≡ some (row_after 50 1 7 completion run_on_nine (quest one_map))
update_quest_progress_for-lookup_example =
    update_quest_progress_for-lookup 50 1 21 completion run_on_nine shop shop-IsKeyed

update_quest_progress_for-listed_example :
    any (λ (i : ℕ). 24 == i) (update_quest_progress_for 50 1 completion run_on_nine shop).1 ≡ (
      is_active_quest 1 7 (record (quest one_map) { user_id = 2 })
      && completes completion run_on_nine (record (quest one_map) { user_id = 2 }))
update_quest_progress_for-listed_example =
    update_quest_progress_for-listed 50 1 24 completion run_on_nine shop
      (record (quest one_map) { user_id = 2 }) shop-IsKeyed refl

revert_quest_progress-lookup_example :
    lookup 23 (revert_quest_progress 1 completion run_on_nine [] [] shop).quests
    ≡ some
        (reverted completion run_on_nine [] [] (record (quest one_map) { completed_at = some 5 }))
revert_quest_progress-lookup_example =
    revert_quest_progress-lookup completion run_on_nine [] [] 1 23 shop shop-IsKeyed

revert_keeps_medal_quests_example :
    lookup 22 (revert_quests_for_completion 1 (pos 2500) none [] none shop).quests
    ≡ some (quest (record one_map { type = some earn_medals }))
revert_keeps_medal_quests_example =
    revert_keeps_medal_quests 1 22 (pos 2500) none [] none shop
      (quest (record one_map { type = some earn_medals })) shop-IsKeyed refl refl

abbrev finished : Database
finished = record shop { quests = (23, record (quest one_map) { completed_at = some 5 }) ∷ [] }

claim_quest_once_example :
    let after = (claim_quest 60 1 23 finished).1 in
    (lookup 1 after.users ≡ some (pos 2000 +ℤ pos 100))
    × (lookup 23 after.quests
        ≡ some (claimed_row 60 (record (quest one_map) { completed_at = some 5 })))
    × (claim_quest 61 1 23 after ≡ (err quest_already_claimed, after))
claim_quest_once_example =
    claim_quest_once 60 61 1 23 finished (record (quest one_map) { completed_at = some 5 })
      (pos 2000) refl refl refl
