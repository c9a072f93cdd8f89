-- ===== src/Quest/Matching.antt =====
-- Which events a quest listens to: `_event_matches_quest` and its handlers, and `_compute_medal`
-- of apps/api/services/completions_service.py, whose medal the events carry.
use genjishimada.Base.{
  Bool, true, false, ◌&&◌, not, Option, none, some, [], opt_eq, get_or, if◌then◌else◌,
}
use genjishimada.Base.Int.{ℤ, pos, leb_ℤ}
use genjishimada.Base.Text.{Text, codes, text_eq, lower}
use genjishimada.Quest.Types.{
  RequirementType, EventType, completion, Requirements, EventData, is_truthy,
}

abbrev pub is_completion : EventType → Bool
is_completion completion = true
is_completion EventType.other_event = false

-- `(event_data.get(k) or "").lower()`
abbrev pub lower_or_empty : Option Text → Text
lower_or_empty x = lower (get_or x [])

-- The test of `_match_complete_maps` on the difficulty: a value that is not empty and not "any".
asks_difficulty : Requirements → Bool
asks_difficulty r = is_truthy r.difficulty && not (text_eq (get_or r.difficulty []) (codes "any"))

-- `_match_complete_maps`
unfoldable pub match_complete_maps : Requirements → EventType → EventData → Bool
unfolding asks_difficulty
match_complete_maps r t e =
    if not (is_completion t)
    then false
    else if asks_difficulty r
        && not (text_eq (lower_or_empty e.difficulty) (lower_or_empty r.difficulty))
    then false
    else if is_truthy r.category
        && not (text_eq (lower_or_empty e.category) (lower_or_empty r.category))
    then false
    else true

-- `_match_earn_medals`
unfoldable pub match_earn_medals : Requirements → EventType → EventData → Bool
match_earn_medals r t e =
    if not (is_completion t)
    then false
    else if not (is_truthy e.medal)
    then false
    else if is_truthy r.medal_type && not (text_eq (lower_or_empty r.medal_type) (codes "any"))
    then text_eq (lower_or_empty e.medal) (lower_or_empty r.medal_type)
    else true

-- `_match_complete_difficulty_range`
unfoldable pub match_complete_difficulty_range : Requirements → EventType → EventData → Bool
match_complete_difficulty_range r t e =
    if not (is_completion t)
    then false
    else text_eq (lower_or_empty e.difficulty) (lower_or_empty r.difficulty)

-- `_match_map_specific`
unfoldable pub match_map_specific : Requirements → EventType → EventData → Bool
match_map_specific r t e = if not (is_completion t) then false else opt_eq e.map_id r.map_id

-- The table of handlers.
abbrev pub matcher : RequirementType → Requirements → EventType → EventData → Bool
matcher RequirementType.complete_maps = match_complete_maps
matcher RequirementType.earn_medals = match_earn_medals
matcher RequirementType.complete_difficulty_range = match_complete_difficulty_range
matcher RequirementType.beat_time = match_map_specific
matcher RequirementType.beat_rival = match_map_specific
matcher RequirementType.complete_map = match_map_specific
matcher RequirementType.unknown = λ r t e. false

-- `_event_matches_quest`
unfoldable pub event_matches_quest : Requirements → EventType → EventData → Bool
event_matches_quest r t e = elim r.type [ none ↦ false | some k ↦ matcher k r t e ]

-- The row of `get_medal_thresholds`; a missing or zero threshold is not tested.
pub record MedalThresholds : Type 0 where
  pub gold : Option ℤ
  pub silver : Option ℤ
  pub bronze : Option ℤ

-- `thresholds.get(k) and time_value <= float(thresholds[k])`
abbrev pub meets : ℤ → Option ℤ → Bool
meets t none = false
meets t (some h) = not (leb_ℤ h (pos 0) && leb_ℤ (pos 0) h) && leb_ℤ t h

-- `_compute_medal`
unfoldable pub compute_medal : ℤ → Option MedalThresholds → Option Text
compute_medal t none = none
compute_medal t (some h) =
    if meets t h.gold
    then some (codes "Gold")
    else if meets t h.silver
    then some (codes "Silver")
    else if meets t h.bronze
    then some (codes "Bronze")
    else none
