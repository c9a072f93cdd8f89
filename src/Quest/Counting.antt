-- ===== src/Quest/Counting.antt =====
-- The counter of a counting quest against the set of maps that it has counted.
use genjishimada.Base.{ℕ, ◌+◌, ◌-◌, ◌≡◌, true, false, Option, none, some, List, [], arith, get_or}
use genjishimada.Base.Int.{ℤ}
use genjishimada.Base.Lists.{length}
use genjishimada.Base.Text.{Text}
use genjishimada.Quest.Types.{
  RequirementType, complete_maps, earn_medals, complete_difficulty_range, beat_time, beat_rival,
  complete_map, unknown, Requirements, EventData, QuestProgress, member, to_set, add, remove,
}
use genjishimada.Quest.Progress.{calculate_new_progress, progress_for, progress_by}
use genjishimada.Quest.Revert.{
  calculate_reverted_progress, reverted_for, reverted_by, revert_complete_maps, revert_earn_medals,
  revert_difficulty_range,
}
use genjishimada.Quest.Sets.{
  IsSetList, to_set-IsSetList, to_set_id, add-IsSetList, length-add, length-remove,
  remove-IsSetList,
}

-- The counter is the number of the maps, and no map is listed twice.
abbrev pub Counted : Option (List (Option ℕ)) → Option ℕ → Type 0
Counted ids n = IsSetList (get_or ids []) × (get_or n 0 ≡ length (get_or ids []))

-- What holds of the progress of a quest of each type.
abbrev pub CountsBy : RequirementType → QuestProgress → Type 0
CountsBy complete_maps p = Counted p.completed_map_ids p.current
CountsBy earn_medals p = Counted p.counted_map_ids p.current
CountsBy complete_difficulty_range p = Counted p.completed_map_ids p.current
CountsBy beat_time p = Unit
CountsBy beat_rival p = Unit
CountsBy complete_map p = Unit
CountsBy unknown p = Unit

abbrev pub Counts : Option RequirementType → QuestProgress → Type 0
Counts none p = Unit
Counts (some k) p = CountsBy k p

Counted-add :
    (x : Option ℕ) (ids : Option (List (Option ℕ))) (n : Option ℕ)
    → Counted ids n
    → member x (to_set (get_or ids [])) ≡ false
    → Counted (some (add x (to_set (get_or ids [])))) (some (get_or n 0 + 1))
Counted-add x ids n (set, counted) new =
    let same = to_set_id (get_or ids []) set in
    (
      add-IsSetList x (to_set (get_or ids [])) (to_set-IsSetList (get_or ids [])),
      ground (arith, same, counted, length-add x (to_set (get_or ids [])) new),
    )

Counted-remove :
    (x : Option ℕ) (ids : Option (List (Option ℕ))) (n : Option ℕ)
    → Counted ids n
    → member x (to_set (get_or ids [])) ≡ true
    → Counted (some (remove x (to_set (get_or ids [])))) (some (get_or n 0 - 1))
Counted-remove x ids n (set, counted) old =
    let same = to_set_id (get_or ids []) set in
    (
      remove-IsSetList x (to_set (get_or ids [])) (to_set-IsSetList (get_or ids [])),
      ground (arith, same, counted, length-remove x (to_set (get_or ids [])) old),
    )

progress_by-CountsBy :
    (k : RequirementType) (p : QuestProgress) (e : EventData)
    → CountsBy k p
    → CountsBy k (progress_by k p e)
progress_by-CountsBy complete_maps p e h =
    ground (arith, h, Counted-add e.map_id p.completed_map_ids p.current h)
progress_by-CountsBy earn_medals p e h =
    ground (arith, h, Counted-add e.map_id p.counted_map_ids p.current h)
progress_by-CountsBy complete_difficulty_range p e h =
    ground (arith, h, Counted-add e.map_id p.completed_map_ids p.current h)
progress_by-CountsBy beat_time p e h = tt
progress_by-CountsBy beat_rival p e h = tt
progress_by-CountsBy complete_map p e h = tt
progress_by-CountsBy unknown p e h = tt

reverted_by-CountsBy :
    (k : RequirementType) (p : QuestProgress) (r : Requirements) (e : EventData) (times : List ℤ)
    (medals : List Text)
    → CountsBy k p
    → CountsBy k (reverted_by k p r e times medals)
unfolding revert_complete_maps revert_earn_medals revert_difficulty_range
reverted_by-CountsBy complete_maps p r e times medals h =
    ground (arith, h, Counted-remove e.map_id p.completed_map_ids p.current h)
reverted_by-CountsBy earn_medals p r e times medals h =
    ground (arith, h, Counted-remove e.map_id p.counted_map_ids p.current h)
reverted_by-CountsBy complete_difficulty_range p r e times medals h =
    ground (arith, h, Counted-remove e.map_id p.completed_map_ids p.current h)
reverted_by-CountsBy beat_time p r e times medals h = tt
reverted_by-CountsBy beat_rival p r e times medals h = tt
reverted_by-CountsBy complete_map p r e times medals h = tt
reverted_by-CountsBy unknown p r e times medals h = tt

-- A quest that counts maps or medals keeps its counter equal to the number of maps that it has
-- counted, none of them twice, when an event moves its progress on.
pub calculate_new_progress-Counts :
    (p : QuestProgress) (r : Requirements) (e : EventData)
    → Counts r.type p
    → Counts r.type (calculate_new_progress p r e)
unfolding calculate_new_progress
calculate_new_progress-Counts p r e = go r.type
  where
    go : (k : Option RequirementType) → Counts k p → Counts k (progress_for k p e)
    go none h = h
    go (some k) h = progress_by-CountsBy k p e h

-- The same holds when a completion that lost its verification moves the progress back: the counter
-- stays the number of the maps counted, whatever runs and medals the player still has.
pub calculate_reverted_progress-Counts :
    (p : QuestProgress) (r : Requirements) (e : EventData) (times : List ℤ) (medals : List Text)
    → Counts r.type p
    → Counts r.type (calculate_reverted_progress p r e times medals)
unfolding calculate_reverted_progress
calculate_reverted_progress-Counts p r e times medals = go r.type
  where
    go : (k : Option RequirementType) → Counts k p → Counts k (reverted_for k p r e times medals)
    go none h = h
    go (some k) h = reverted_by-CountsBy k p r e times medals h
