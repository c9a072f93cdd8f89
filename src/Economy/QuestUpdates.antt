-- ===== src/Economy/QuestUpdates.antt =====
-- The loops over a player's quests, against what happens to one row.
use genjishimada.Base.{
  ℕ, ◌≡◌, refl, Bool, false, ◌&&◌, ◌||◌, not, Option, none, some, [], ◌∷◌, arith, ◌==◌, is_some,
  if◌then◌else◌, Bool-cases, Option-cases, inl, inr,
}
use genjishimada.Base.Dict.{Dict, lookup}
use genjishimada.Base.Lists.{any}
use genjishimada.Quest.Types.{EventType, EventData}
use genjishimada.Quest.Matching.{event_matches_quest}
use genjishimada.Quest.Progress.{calculate_new_progress}
use genjishimada.Quest.Completion.{is_quest_complete}
use genjishimada.Economy.Tables.{Database, QuestRow}
use genjishimada.Economy.StoreRepository.{
  is_active_quest, get_active_user_quests, update_row, completed_now,
}
use genjishimada.Economy.Quests.{advance_quest, advance_quests, update_quest_progress_for}
use genjishimada.Economy.QuestRows.{
  IsKeyed, on_row, lookup-update_row, chosen-IsKeyed, lookup-chosen, lookup-chosen-none, AllIn,
  AllIn-chosen, AllIn-update_row,
}

-- Whether an event completes the quest of a row.
abbrev pub completes : EventType → EventData → QuestRow → Bool
completes t e row =
    not (is_some row.completed_at)
    && event_matches_quest row.quest_data.requirements t e
    && is_quest_complete (calculate_new_progress row.progress row.quest_data.requirements e)
        row.quest_data.requirements

-- What an event makes of one row of the player in the current rotation.
abbrev pub advanced : ℕ → EventType → EventData → QuestRow → QuestRow
advanced now t e row =
    let r = row.quest_data.requirements in
    if is_some row.completed_at || not (event_matches_quest r t e) then row else record row {
      progress = calculate_new_progress row.progress r e;
      completed_at = if completes t e row then some now else none;
    }

advance_quest-lookup :
    (now : ℕ) (t : EventType) (e : EventData) (i j : ℕ) (row : QuestRow) (db : Database)
    → lookup i db.quests ≡ some row
    → lookup j (advance_quest now t e (i, row) db).0.quests
      ≡ (if j == i then some (advanced now t e row) else lookup j db.quests)
unfolding advance_quest
advance_quest-lookup now t e i j row db h =
    let r = row.quest_data.requirements in
    let p = calculate_new_progress row.progress r e in
    ground (
      arith,
      lookup-update_row j i (λ (x : QuestRow). record x { progress = p }) db.quests,
      lookup-update_row j i (completed_now now)
          (update_row i (λ (x : QuestRow). record x { progress = p }) db.quests),
    )

advance_quest-AllIn :
    (now : ℕ) (t : EventType) (e : EventData) (i : ℕ) (row : QuestRow) (db : Database)
    (qs : Dict QuestRow)
    → lookup i qs ≡ none
    → AllIn db.quests qs
    → AllIn (advance_quest now t e (i, row) db).0.quests qs
unfolding advance_quest
advance_quest-AllIn now t e i row db qs h a =
    let r = row.quest_data.requirements in
    let p = calculate_new_progress row.progress r e in
    let saved = update_row i (λ (x : QuestRow). record x { progress = p }) db.quests in
    let a1 = AllIn-update_row i (λ (x : QuestRow). record x { progress = p }) db.quests qs h a in
    let a2 = AllIn-update_row i (completed_now now) saved qs h a1 in
    elim (Bool-cases (is_some row.completed_at)) [
      | inl done ↦ rw done a
      | inr open_row ↦ elim (Bool-cases (event_matches_quest r t e)) [
        | inr other ↦ rw (open_row, other) a
        | inl fits ↦ elim (Bool-cases (is_quest_complete p r)) [
          | inl full ↦ rw (open_row, fits, full) a2
          | inr short ↦ rw (open_row, fits, short) a1
        ]
      ]
    ]

advance_quest-done :
    (now : ℕ) (t : EventType) (e : EventData) (i : ℕ) (row : QuestRow) (db : Database)
    → (advance_quest now t e (i, row) db).1 ≡ completes t e row
unfolding advance_quest
advance_quest-done now t e i row db = ground arith

-- The row under an id after the loop, given the row that the loop read under it, if any.
abbrev pub advanced_from :
    ℕ → EventType → EventData → Option QuestRow → Option QuestRow → Option QuestRow
advanced_from now t e none old = old
advanced_from now t e (some row) old = some (advanced now t e row)

advance_quests-lookup :
    (now : ℕ) (t : EventType) (e : EventData) (j : ℕ) (qs : Dict QuestRow) (db : Database)
    → IsKeyed qs
    → AllIn db.quests qs
    → lookup j (advance_quests now t e qs db).0.quests
      ≡ advanced_from now t e (lookup j qs) (lookup j db.quests)
unfolding advance_quests
advance_quests-lookup now t e j [] db keyed a = refl
advance_quests-lookup now t e j ((i, row) ∷ qs) db keyed a =
    let db' = (advance_quest now t e (i, row) db).0 in
    ground (
      arith,
      keyed,
      advance_quest-lookup now t e i j row db a.0,
      advance_quests-lookup now t e j qs db' keyed.1
          (advance_quest-AllIn now t e i row db qs keyed.0 a.1),
    )

-- What an event makes of a row of the table: only the rows of the player in the current rotation
-- take part.
abbrev pub row_after : ℕ → ℕ → ℕ → EventType → EventData → QuestRow → QuestRow
row_after now u rotation t e row =
    if is_active_quest u rotation row then advanced now t e row else row

-- The loop over a player's quests does to each row of the table what it does to that row alone. A
-- row of another player or of another rotation, a quest that was already completed and a quest
-- that the event does not match stay as they are; any other quest gets its new progress, and is
-- completed at this moment exactly when the new progress meets its requirements.
pub update_quest_progress_for-lookup :
    (now u j : ℕ) (t : EventType) (e : EventData) (db : Database)
    → IsKeyed db.quests
    → lookup j (update_quest_progress_for now u t e db).0.quests
      ≡ on_row (row_after now u db.current_rotation_id t e) (lookup j db.quests)
unfolding update_quest_progress_for
update_quest_progress_for-lookup now u j t e db keyed =
    let active = is_active_quest u db.current_rotation_id in
    let whole =
      advance_quests-lookup now t e j (get_active_user_quests u db) db
        (chosen-IsKeyed active db.quests keyed) (AllIn-chosen active db.quests keyed) in
    elim (Option-cases (lookup j db.quests)) [
      | inl missing ↦ ground (arith, whole, lookup-chosen-none active j db.quests missing)
      | inr (row, found) ↦ ground (arith, whole, lookup-chosen active j db.quests row keyed found)
    ]

abbrev completes? : EventType → EventData → Option QuestRow → Bool
completes? t e none = false
completes? t e (some row) = completes t e row

advance_quests-listed :
    (now : ℕ) (t : EventType) (e : EventData) (j : ℕ) (qs : Dict QuestRow) (db : Database)
    → IsKeyed qs
    → any (λ (i : ℕ). j == i) (advance_quests now t e qs db).1 ≡ completes? t e (lookup j qs)
unfolding advance_quests
advance_quests-listed now t e j [] db keyed = refl
advance_quests-listed now t e j ((i, row) ∷ qs) db keyed = ground (
  arith,
  keyed,
  advance_quest-done now t e i row db,
  advance_quests-listed now t e j qs (advance_quest now t e (i, row) db).0 keyed.1,
)

-- The update reports the id of a row exactly when the row is the player's, of the current rotation,
-- not completed before, matched by the event, and its new progress meets the requirements.
pub update_quest_progress_for-listed :
    (now u j : ℕ) (t : EventType) (e : EventData) (db : Database) (row : QuestRow)
    → IsKeyed db.quests
    → lookup j db.quests ≡ some row
    → any (λ (i : ℕ). j == i) (update_quest_progress_for now u t e db).1
      ≡ (is_active_quest u db.current_rotation_id row && completes t e row)
unfolding update_quest_progress_for
update_quest_progress_for-listed now u j t e db row keyed found =
    let active = is_active_quest u db.current_rotation_id in
    ground (
      arith,
      advance_quests-listed now t e j (get_active_user_quests u db) db
          (chosen-IsKeyed active db.quests keyed),
      lookup-chosen active j db.quests row keyed found,
    )
