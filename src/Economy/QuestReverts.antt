-- ===== src/Economy/QuestReverts.antt =====
-- The loop of `revert_quest_progress`, against what happens to one row, and what it never does.
use genjishimada.Base.{
  ℕ, ◌≡◌, refl, ◌||◌, not, Option, none, some, List, [], ◌∷◌, arith, ◌==◌, is_some, if◌then◌else◌,
  Bool-cases, Option-cases, inl, inr,
}
use genjishimada.Base.Dict.{Dict, lookup}
use genjishimada.Base.Int.{ℤ}
use genjishimada.Base.Text.{Text}
use genjishimada.Quest.Types.{EventType, EventData, earn_medals}
use genjishimada.Quest.Matching.{event_matches_quest, match_earn_medals}
use genjishimada.Quest.Revert.{calculate_reverted_progress}
use genjishimada.Economy.Tables.{Database, QuestRow}
use genjishimada.Economy.StoreRepository.{is_active_quest, get_active_user_quests}
use genjishimada.Economy.Quests.{revert_quest, revert_quests, revert_quest_progress}
use genjishimada.Economy.QuestRows.{
  IsKeyed, on_row, lookup-update_row, chosen-IsKeyed, lookup-chosen, lookup-chosen-none, AllIn,
  AllIn-chosen, AllIn-update_row,
}

-- What a lost verification makes of one row of the player in the current rotation.
abbrev pub reverted : EventType → EventData → List ℤ → List Text → QuestRow → QuestRow
reverted t e times medals row =
    let r = row.quest_data.requirements in
    if is_some row.completed_at || not (event_matches_quest r t e)
    then row
    else record row { progress = calculate_reverted_progress row.progress r e times medals }

module _ (t : EventType) (e : EventData) (times : List ℤ) (medals : List Text) where
  revert_quest-lookup :
      (i j : ℕ) (row : QuestRow) (db : Database)
      → lookup i db.quests ≡ some row
      → lookup j (revert_quest t e times medals (i, row) db).quests
        ≡ (if j == i then some (reverted t e times medals row) else lookup j db.quests)
  unfolding revert_quest
  revert_quest-lookup i j row db h =
      let p = calculate_reverted_progress row.progress row.quest_data.requirements e times medals in
      ground (arith, lookup-update_row j i (λ (x : QuestRow). record x { progress = p }) db.quests)

  revert_quest-AllIn :
      (i : ℕ) (row : QuestRow) (db : Database) (qs : Dict QuestRow)
      → lookup i qs ≡ none
      → AllIn db.quests qs
      → AllIn (revert_quest t e times medals (i, row) db).quests qs
  unfolding revert_quest
  revert_quest-AllIn i row db qs h a =
      let r = row.quest_data.requirements in
      let p = calculate_reverted_progress row.progress r e times medals in
      elim (Bool-cases (is_some row.completed_at)) [
        | inl done ↦ rw done a
        | inr open_row ↦ elim (Bool-cases (event_matches_quest r t e)) [
          | inr other ↦ rw (open_row, other) a
          | inl fits ↦
              rw (open_row, fits)
                (AllIn-update_row i (λ (x : QuestRow). record x { progress = p }) db.quests qs h a)
        ]
      ]

  abbrev reverted_from : Option QuestRow → Option QuestRow → Option QuestRow
  reverted_from none old = old
  reverted_from (some row) old = some (reverted t e times medals row)

  revert_quests-lookup :
      (j : ℕ) (qs : Dict QuestRow) (db : Database)
      → IsKeyed qs
      → AllIn db.quests qs
      → lookup j (revert_quests t e times medals qs db).quests
        ≡ reverted_from (lookup j qs) (lookup j db.quests)
  unfolding revert_quests
  revert_quests-lookup j [] db keyed a = refl
  revert_quests-lookup j ((i, row) ∷ qs) db keyed a =
      let db' = revert_quest t e times medals (i, row) db in
      ground (
        arith,
        keyed,
        revert_quest-lookup i j row db a.0,
        revert_quests-lookup j qs db' keyed.1 (revert_quest-AllIn i row db qs keyed.0 a.1),
      )

  -- Reverting does to each row of the table what it does to that row alone: the row of a matching
  -- quest of the player in the current rotation that was not completed gets the reverted progress,
  -- and every other row, a completed quest among them, stays as it is.
  pub revert_quest_progress-lookup :
      (u j : ℕ) (db : Database)
      → IsKeyed db.quests
      → lookup j (revert_quest_progress u t e times medals db).quests
        ≡ on_row
            (λ (row : QuestRow).
              if is_active_quest u db.current_rotation_id row
              then reverted t e times medals row
              else row)
            (lookup j db.quests)
  unfolding revert_quest_progress
  revert_quest_progress-lookup u j db keyed =
      let active = is_active_quest u db.current_rotation_id in
      let whole =
        revert_quests-lookup j (get_active_user_quests u db) db
          (chosen-IsKeyed active db.quests keyed) (AllIn-chosen active db.quests keyed) in
      elim (Option-cases (lookup j db.quests)) [
        | inl missing ↦ ground (arith, whole, lookup-chosen-none active j db.quests missing)
        | inr (row, found) ↦ ground (arith, whole, lookup-chosen active j db.quests row keyed found)
      ]

  -- An event that names no medal moves no medal quest back, whatever medals the player has lost:
  -- every row of the type "earn_medals" stays as it is.
  pub revert_skips_medal_quests :
      (u j : ℕ) (db : Database) (row : QuestRow)
      → IsKeyed db.quests
      → lookup j db.quests ≡ some row
      → row.quest_data.requirements.type ≡ some earn_medals
      → e.medal ≡ none
      → lookup j (revert_quest_progress u t e times medals db).quests ≡ some row
  unfolding event_matches_quest match_earn_medals
  revert_skips_medal_quests u j db row keyed found medal_quest unnamed =
      ground (arith, revert_quest_progress-lookup u j db keyed)
