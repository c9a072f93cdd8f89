-- ===== src/Quest/Revert.antt =====
-- `_calculate_reverted_progress` of apps/api/services/store_service.py and its handlers: a
-- completion that loses its verification moves a quest's progress back.
use genjishimada.Base.{
  ℕ, ◌-◌, Bool, false, ◌&&◌, ◌||◌, not, Option, none, some, List, [], ◌∷◌, get_or, leb, opt_eq,
  if◌then◌else◌,
}
use genjishimada.Base.Int.{ℤ, min_ℤ}
use genjishimada.Base.Lists.{filter, any, is_empty}
use genjishimada.Base.Text.{Text, codes, text_eq, lower}
use genjishimada.Quest.Types.{
  RequirementType, Requirements, EventData, MedalEntry, QuestProgress, is_truthy, member, to_set,
  remove,
}

-- `current_progress.pop(k)` on an emptied container
abbrev pub some_unless_empty {ℓ} : {A : Type ℓ} → List A → Option (List A)
some_unless_empty [] = none
some_unless_empty (x ∷ xs) = some (x ∷ xs)

-- `details[k] = max(0, details.get(k, 0) - 1)`, and the entry goes when it reaches 0. Truncated
-- subtraction is the `max(0, …)`; an absent key is written as 0 and then removed.
abbrev pub drop_one : Text → List (Text × ℕ) → List (Text × ℕ)
drop_one k [] = []
drop_one k ((j, n) ∷ d) =
    if text_eq k j then (if leb n 1 then d else (j, n - 1) ∷ d) else (j, n) ∷ drop_one k d

abbrev pub reverted_details : Text → List (Text × ℕ) → Option (List (Text × ℕ))
reverted_details k d = some_unless_empty (if is_empty k then d else drop_one k d)

-- `_revert_complete_maps`
unfoldable pub revert_complete_maps : QuestProgress → EventData → Bool → QuestProgress
revert_complete_maps p e remaining = elim e.map_id [
  | none ↦ p
  | some m ↦
      let seen = to_set (get_or p.completed_map_ids []) in
      if not (member (some m) seen) || remaining then p else record p {
        completed_map_ids = some (remove (some m) seen);
        current = some (get_or p.current 0 - 1);
        details = reverted_details (lower (get_or e.difficulty [])) (get_or p.details []);
      }
]

-- Whether a medal that the player still holds keeps the map counted.
abbrev pub still_counts : Requirements → List Text → Bool
still_counts r medals =
    if is_truthy r.medal_type && not (text_eq (lower (get_or r.medal_type [])) (codes "any"))
    then any (λ m. text_eq (lower m) (lower (get_or r.medal_type []))) medals
    else not (is_empty medals)

-- `_revert_earn_medals`
unfoldable pub revert_earn_medals :
    QuestProgress → Requirements → EventData → List Text → QuestProgress
revert_earn_medals p r e medals = elim e.map_id [
  | none ↦ p
  | some m ↦
      let seen = to_set (get_or p.counted_map_ids []) in
      if not (member (some m) seen) then p else if still_counts r medals then p else record p {
        counted_map_ids = some (remove (some m) seen);
        current = some (get_or p.current 0 - 1);
        medals =
            some_unless_empty
              (filter (λ (x : MedalEntry). not (opt_eq x.map_id (some m))) (get_or p.medals []));
      }
]

-- `_revert_complete_difficulty_range`
unfoldable pub revert_difficulty_range : QuestProgress → EventData → Bool → QuestProgress
revert_difficulty_range p e remaining = elim e.map_id [
  | none ↦ p
  | some m ↦
      let seen = to_set (get_or p.completed_map_ids []) in
      if not (member (some m) seen) || remaining then p else record p {
        completed_map_ids = some (remove (some m) seen);
        current = some (get_or p.current 0 - 1);
      }
]

-- `min(remaining_times)` of a list that is not empty
abbrev pub min_of : ℤ → List ℤ → ℤ
min_of t [] = t
min_of t (u ∷ ts) = min_of (min_ℤ t u) ts

-- `_revert_best_time`
unfoldable pub revert_best_time : QuestProgress → List ℤ → QuestProgress
revert_best_time p [] = record p { best_attempt = none; last_attempt = none }
revert_best_time p (t ∷ ts) = record p {
  best_attempt = some (min_of t ts);
  last_attempt = some (min_of t ts);
}

-- `_revert_complete_map`
unfoldable pub revert_complete_map : QuestProgress → Bool → QuestProgress
revert_complete_map p remaining =
    if remaining then p else record p { completed = some false; medal_earned = none }

abbrev pub reverted_by :
    RequirementType → QuestProgress → Requirements → EventData → List ℤ → List Text → QuestProgress
reverted_by RequirementType.complete_maps p r e times medals =
    revert_complete_maps p e (not (is_empty times))
reverted_by RequirementType.earn_medals p r e times medals = revert_earn_medals p r e medals
reverted_by RequirementType.complete_difficulty_range p r e times medals =
    revert_difficulty_range p e (not (is_empty times))
reverted_by RequirementType.beat_time p r e times medals = revert_best_time p times
reverted_by RequirementType.beat_rival p r e times medals = revert_best_time p times
reverted_by RequirementType.complete_map p r e times medals =
    revert_complete_map p (not (is_empty times))
reverted_by RequirementType.unknown p r e times medals = p

abbrev pub reverted_for :
    Option RequirementType
    → QuestProgress
    → Requirements
    → EventData
    → List ℤ
    → List Text
    → QuestProgress
reverted_for none p r e times medals = p
reverted_for (some k) p r e times medals = reverted_by k p r e times medals

-- `_calculate_reverted_progress`
unfoldable pub calculate_reverted_progress :
    QuestProgress → Requirements → EventData → List ℤ → List Text → QuestProgress
calculate_reverted_progress p r e times medals = reverted_for r.type p r e times medals
