-- ===== src/Quest/Types.antt =====
-- The JSON objects that the quest code of apps/api/services/store_service.py reads. A key that may
-- be missing or null is an optional field; `d.get(k, x)` is `get_or`. Times are hundredths of a
-- second. A `set` is a list without repetitions.
use genjishimada.Base.{
  ℕ, Bool, true, false, Option, none, some, List, [], ◌∷◌, opt_eq, if◌then◌else◌,
}
use genjishimada.Base.Int.{ℤ}
use genjishimada.Base.Lists.{any}
use genjishimada.Base.Text.{Text}

-- The strings that `requirements["type"]` is compared with; `unknown` is any other string.
pub data RequirementType : Type 0 where
  complete_maps earn_medals complete_difficulty_range beat_time beat_rival complete_map unknown :
      RequirementType

-- `event_type`; `other_event` is any string but "completion".
pub data EventType : Type 0 where
  completion other_event : EventType

-- `type` is `none` where the key is missing or holds no string.
pub record Requirements : Type 0 where
  pub type : Option RequirementType
  pub difficulty : Option Text
  pub category : Option Text
  pub medal_type : Option Text
  pub map_id : Option ℕ
  pub count : Option ℕ
  pub min_count : Option ℕ
  pub target_time : Option ℤ
  pub rival_time : Option ℤ

pub record EventData : Type 0 where
  pub map_id : Option ℕ
  pub difficulty : Option Text
  pub category : Option Text
  pub time : Option ℤ
  pub medal : Option Text

-- An entry of `progress["medals"]`.
pub record MedalEntry : Type 0 where
  pub map_id : Option ℕ
  pub medal_type : Option Text

pub record QuestProgress : Type 0 where
  pub completed_map_ids : Option (List (Option ℕ))
  pub counted_map_ids : Option (List (Option ℕ))
  pub current : Option ℕ
  pub details : Option (List (Text × ℕ))
  pub medals : Option (List MedalEntry)
  pub last_attempt : Option ℤ
  pub best_attempt : Option ℤ
  pub completed : Option Bool
  pub medal_earned : Option Text

-- Python's truth of an optional text: neither missing nor empty.
abbrev pub is_truthy : Option Text → Bool
is_truthy none = false
is_truthy (some []) = false
is_truthy (some (_ ∷ _)) = true

-- `x in s`
abbrev pub member : Option ℕ → List (Option ℕ) → Bool
member x s = any (opt_eq x) s

-- `set(xs)`
abbrev pub to_set : List (Option ℕ) → List (Option ℕ)
to_set [] = []
to_set (x ∷ xs) = let rest = to_set xs in if member x rest then rest else x ∷ rest

-- `s.add(x)`
abbrev pub add : Option ℕ → List (Option ℕ) → List (Option ℕ)
add x s = if member x s then s else x ∷ s

-- `s.remove(x)`, of an item that is there
abbrev pub remove : Option ℕ → List (Option ℕ) → List (Option ℕ)
remove x [] = []
remove x (y ∷ s) = if opt_eq x y then s else y ∷ remove x s
