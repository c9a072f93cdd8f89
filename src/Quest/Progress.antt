-- ===== src/Quest/Progress.antt =====
-- `_calculate_new_progress` of apps/api/services/store_service.py: a matching event moves a
-- quest's progress on.
use genjishimada.Base.{ℕ, ◌+◌, true, Option, none, some, List, [], ◌∷◌, ◌++◌, get_or, if◌then◌else◌}
use genjishimada.Base.Int.{ℤ, min_ℤ}
use genjishimada.Base.Text.{Text, text_eq, lower}
use genjishimada.Quest.Types.{
  RequirementType, Requirements, EventData, QuestProgress, is_truthy, member, to_set, add,
}

-- `details[k] = details.get(k, 0) + 1`
abbrev pub bump : Text → List (Text × ℕ) → List (Text × ℕ)
bump k [] = (k, 1) ∷ []
bump k ((j, n) ∷ d) = if text_eq k j then (j, n + 1) ∷ d else (j, n) ∷ bump k d

abbrev pub progress_complete_maps : QuestProgress → EventData → QuestProgress
progress_complete_maps p e =
    let seen = to_set (get_or p.completed_map_ids []) in
    if member e.map_id seen then p else record p {
      completed_map_ids = some (add e.map_id seen);
      current = some (get_or p.current 0 + 1);
      details = some (bump (lower (get_or e.difficulty [])) (get_or p.details []));
    }

abbrev pub progress_earn_medals : QuestProgress → EventData → QuestProgress
progress_earn_medals p e =
    let seen = to_set (get_or p.counted_map_ids []) in
    if member e.map_id seen then p else record p {
      counted_map_ids = some (add e.map_id seen);
      current = some (get_or p.current 0 + 1);
      medals =
          some (get_or p.medals [] ++ (record { map_id = e.map_id; medal_type = e.medal } ∷ []));
    }

abbrev pub progress_difficulty_range : QuestProgress → EventData → QuestProgress
progress_difficulty_range p e =
    let seen = to_set (get_or p.completed_map_ids []) in
    if member e.map_id seen then p else record p {
      completed_map_ids = some (add e.map_id seen);
      current = some (get_or p.current 0 + 1);
    }

-- `min(best_value, new_time)`, where a missing best is infinite
abbrev pub better : Option ℤ → ℤ → ℤ
better none t = t
better (some b) t = min_ℤ b t

abbrev pub progress_time : QuestProgress → Option ℤ → QuestProgress
progress_time p none = p
progress_time p (some t) = record p {
  last_attempt = some t;
  best_attempt = some (better p.best_attempt t);
}

abbrev pub progress_complete_map : QuestProgress → EventData → QuestProgress
progress_complete_map p e =
    let done = record p { completed = some true } in
    if is_truthy e.medal then record done { medal_earned = e.medal } else done

abbrev pub progress_by : RequirementType → QuestProgress → EventData → QuestProgress
progress_by RequirementType.complete_maps p e = progress_complete_maps p e
progress_by RequirementType.earn_medals p e = progress_earn_medals p e
progress_by RequirementType.complete_difficulty_range p e = progress_difficulty_range p e
progress_by RequirementType.beat_time p e = progress_time p e.time
progress_by RequirementType.beat_rival p e = progress_time p e.time
progress_by RequirementType.complete_map p e = progress_complete_map p e
progress_by RequirementType.unknown p e = p

abbrev pub progress_for : Option RequirementType → QuestProgress → EventData → QuestProgress
progress_for none p e = p
progress_for (some k) p e = progress_by k p e

-- `_calculate_new_progress`
unfoldable pub calculate_new_progress : QuestProgress → Requirements → EventData → QuestProgress
calculate_new_progress p r e = progress_for r.type p e
