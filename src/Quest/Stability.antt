-- ===== src/Quest/Stability.antt =====
-- Repeated and later events on one quest.
use genjishimada.Base.{ℕ, ◌≡◌, ◌≢◌, refl, true, Option, none, some, List, [], arith, get_or}
use genjishimada.Base.Int.{◌-ℤ◌}
use genjishimada.Quest.Types.{
  RequirementType, complete_maps, earn_medals, complete_difficulty_range, beat_time, beat_rival,
  complete_map, unknown, Requirements, EventData, QuestProgress, member, to_set, add,
}
use genjishimada.Quest.Progress.{calculate_new_progress, progress_for, progress_by}
use genjishimada.Quest.Completion.{
  is_quest_complete, complete_for, complete_by, is_complete_time_target, auto_patch_progress,
  auto_patch_by,
}
use genjishimada.Quest.Sets.{to_set-IsSetList, to_set_id, add-IsSetList, member-add}

member-to_set-add :
    (x : Option ℕ) (xs : List (Option ℕ)) → member x (to_set (add x (to_set xs))) ≡ true
member-to_set-add x xs =
    rw (to_set_id (add x (to_set xs)) (add-IsSetList x (to_set xs) (to_set-IsSetList xs)))
      (member-add x (to_set xs))

progress_by_idem :
    (k : RequirementType) (p : QuestProgress) (e : EventData)
    → progress_by k (progress_by k p e) e ≡ progress_by k p e
progress_by_idem complete_maps p e =
    ground (arith, member-to_set-add e.map_id (get_or p.completed_map_ids []))
progress_by_idem earn_medals p e =
    ground (arith, member-to_set-add e.map_id (get_or p.counted_map_ids []))
progress_by_idem complete_difficulty_range p e =
    ground (arith, member-to_set-add e.map_id (get_or p.completed_map_ids []))
progress_by_idem beat_time p e = ground arith
progress_by_idem beat_rival p e = ground arith
progress_by_idem complete_map p e = ground arith
progress_by_idem unknown p e = refl

-- An event that is delivered twice moves the progress of any quest on only once.
pub calculate_new_progress_idem :
    (p : QuestProgress) (r : Requirements) (e : EventData)
    → calculate_new_progress (calculate_new_progress p r e) r e ≡ calculate_new_progress p r e
unfolding calculate_new_progress
calculate_new_progress_idem p r e = go r.type
  where
    go : (k : Option RequirementType) → progress_for k (progress_for k p e) e ≡ progress_for k p e
    go none = refl
    go (some k) = progress_by_idem k p e

complete_by_stays :
    (k : RequirementType) (p : QuestProgress) (r : Requirements) (e : EventData)
    → complete_by k p r ≡ true
    → complete_by k (progress_by k p e) r ≡ true
unfolding is_complete_time_target
complete_by_stays complete_maps p r e h = ground arith
complete_by_stays earn_medals p r e h = ground arith
complete_by_stays complete_difficulty_range p r e h = ground arith
complete_by_stays beat_time p r e h = ground arith
complete_by_stays beat_rival p r e h = ground arith
complete_by_stays complete_map p r e h = ground arith
complete_by_stays unknown p r e h = h

-- A quest whose progress meets its requirements meets them after any further event.
pub is_quest_complete_stays :
    (p : QuestProgress) (r : Requirements) (e : EventData)
    → is_quest_complete p r ≡ true
    → is_quest_complete (calculate_new_progress p r e) r ≡ true
unfolding is_quest_complete calculate_new_progress
is_quest_complete_stays p r e = go r.type
  where
    go :
        (k : Option RequirementType)
        → complete_for k p r ≡ true
        → complete_for k (progress_for k p e) r ≡ true
    go none h = h
    go (some k) h = complete_by_stays k p r e h

-- The target that "beat_rival" is marked complete by is the one that it is tested against.
abbrev pub HasTarget : RequirementType → Requirements → Type 0
HasTarget complete_maps r = Unit
HasTarget earn_medals r = Unit
HasTarget complete_difficulty_range r = Unit
HasTarget beat_time r = r.target_time ≢ none
HasTarget beat_rival r = (r.rival_time ≢ none) × (r.rival_time ≡ r.target_time)
HasTarget complete_map r = Unit
HasTarget unknown r = ⊥

auto_patch_by_completes :
    (k : RequirementType) (p : QuestProgress) (r : Requirements)
    → HasTarget k r
    → complete_by k (auto_patch_by k p r) r ≡ true
unfolding is_complete_time_target ◌-ℤ◌
auto_patch_by_completes complete_maps p r h = ground arith
auto_patch_by_completes earn_medals p r h = ground arith
auto_patch_by_completes complete_difficulty_range p r h = ground arith
auto_patch_by_completes beat_time p r h = ground arith
auto_patch_by_completes beat_rival p r h = ground arith
auto_patch_by_completes complete_map p r h = refl
auto_patch_by_completes unknown p r h = absurd h

-- The progress that an administrator's "completed" writes passes the test of completion, for every
-- known type, where a timed quest has its target and a rival's time is the target.
pub auto_patch_progress_completes :
    (k : RequirementType) (p : QuestProgress) (r : Requirements)
    → r.type ≡ some k
    → HasTarget k r
    → is_quest_complete (auto_patch_progress p r) r ≡ true
unfolding is_quest_complete auto_patch_progress
auto_patch_progress_completes k p r t h = simp t (auto_patch_by_completes k p r h)
