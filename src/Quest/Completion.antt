-- ===== src/Quest/Completion.antt =====
-- `_is_quest_complete` of apps/api/services/store_service.py, and the progress that an
-- administrator's "completed" writes (`_auto_patch_progress_for_completion`).
use genjishimada.Base.{Bool, true, false, Option, none, some, get_or, leb}
use genjishimada.Base.Int.{ℤ, pos, ◌-ℤ◌, ltb_ℤ}
use genjishimada.Quest.Types.{RequirementType, Requirements, QuestProgress}

-- `best_value < float(target_time)`, where a missing best is infinite
abbrev pub beats : Option ℤ → ℤ → Bool
beats none target = false
beats (some best) target = ltb_ℤ best target

-- `_is_complete_time_target`
unfoldable pub is_complete_time_target : QuestProgress → Requirements → Bool
is_complete_time_target p r = elim r.target_time [
  | none ↦ false
  | some target ↦ beats p.best_attempt target
]

abbrev pub complete_by : RequirementType → QuestProgress → Requirements → Bool
complete_by RequirementType.complete_maps p r = leb (get_or r.count 0) (get_or p.current 0)
complete_by RequirementType.earn_medals p r = leb (get_or r.count 0) (get_or p.current 0)
complete_by RequirementType.complete_difficulty_range p r =
    leb (get_or r.min_count 0) (get_or p.current 0)
complete_by RequirementType.beat_time p r = is_complete_time_target p r
complete_by RequirementType.beat_rival p r = is_complete_time_target p r
complete_by RequirementType.complete_map p r = get_or p.completed false
complete_by RequirementType.unknown p r = false

abbrev pub complete_for : Option RequirementType → QuestProgress → Requirements → Bool
complete_for none p r = false
complete_for (some k) p r = complete_by k p r

-- `_is_quest_complete`
unfoldable pub is_quest_complete : QuestProgress → Requirements → Bool
unfolding is_complete_time_target
is_quest_complete p r = complete_for r.type p r

-- `float(target_time) - 0.01`, one hundredth less, where there is a target
abbrev pub patched_time : QuestProgress → Option ℤ → QuestProgress
patched_time p none = p
patched_time p (some target) = record p { best_attempt = some (target -ℤ pos 1) }

abbrev pub auto_patch_by : RequirementType → QuestProgress → Requirements → QuestProgress
auto_patch_by RequirementType.complete_maps p r = record p { current = some (get_or r.count 0) }
auto_patch_by RequirementType.earn_medals p r = record p { current = some (get_or r.count 0) }
auto_patch_by RequirementType.complete_difficulty_range p r = record p {
  current = some (get_or r.min_count 0);
}
auto_patch_by RequirementType.beat_time p r = patched_time p r.target_time
auto_patch_by RequirementType.beat_rival p r = patched_time p r.rival_time
auto_patch_by RequirementType.complete_map p r = record p { completed = some true }
auto_patch_by RequirementType.unknown p r = p

abbrev pub auto_patch_for : Option RequirementType → QuestProgress → Requirements → QuestProgress
auto_patch_for none p r = p
auto_patch_for (some k) p r = auto_patch_by k p r

-- `_auto_patch_progress_for_completion`
unfoldable pub auto_patch_progress : QuestProgress → Requirements → QuestProgress
auto_patch_progress p r = auto_patch_for r.type p r
