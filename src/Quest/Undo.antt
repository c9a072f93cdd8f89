-- ===== src/Quest/Undo.antt =====
-- Taking back the progress that one completion brought.
use genjishimada.Base.{ℕ, ◌<◌, ◌≡◌, ◌≢◌, true, false, Option, some, List, [], ◌∷◌, arith, get_or}
use genjishimada.Base.Lists.{All}
use genjishimada.Base.Text.{Text, text_eq_refl, lower}
use genjishimada.Quest.Types.{
  complete_maps, complete_difficulty_range, Requirements, EventData, QuestProgress, member, to_set,
  add, remove,
}
use genjishimada.Quest.Progress.{calculate_new_progress, bump}
use genjishimada.Quest.Revert.{
  calculate_reverted_progress, revert_complete_maps, revert_difficulty_range, drop_one,
  some_unless_empty,
}
use genjishimada.Quest.Sets.{IsSetList, to_set_id, add-IsSetList, member-add, remove-add}

-- Every count of the breakdown by difficulty is positive.
abbrev pub IsPositive : List (Text × ℕ) → Type 0
IsPositive d = All (λ (e : Text × ℕ). 0 < e.1) d

drop_one-bump : (k : Text) (d : List (Text × ℕ)) → IsPositive d → drop_one k (bump k d) ≡ d
drop_one-bump k [] h = rw (text_eq_refl k)
drop_one-bump k ((j, n) ∷ d) h = ground (arith, h, drop_one-bump k d h.1)

-- After a new map is added to a set the revert finds it there.
member-to_set-add :
    (x : Option ℕ) (s : List (Option ℕ)) → IsSetList s → member x (to_set (add x s)) ≡ true
member-to_set-add x s h = rw (to_set_id (add x s) (add-IsSetList x s h)) (member-add x s)

remove-to_set-add :
    (x : Option ℕ) (s : List (Option ℕ))
    → IsSetList s
    → member x s ≡ false
    → remove x (to_set (add x s)) ≡ s
remove-to_set-add x s h new = rw (to_set_id (add x s) (add-IsSetList x s h)) (remove-add x s new)

-- Reverting the completion that has just counted a new map, with no verified run left on it, gives
-- the progress of a quest of the type "complete_maps" back as it was, when the progress holds its
-- set of maps and its counter, the event names a difficulty, no entry of the breakdown by
-- difficulty is 0, and an empty breakdown is stored as none.
pub revert_undoes_complete_maps :
    (p : QuestProgress) (r : Requirements) (e : EventData) (s : List (Option ℕ)) (m c : ℕ)
    (medals : List Text)
    → r.type ≡ some complete_maps
    → e.map_id ≡ some m
    → p.completed_map_ids ≡ some s
    → p.current ≡ some c
    → IsSetList s
    → member (some m) s ≡ false
    → IsPositive (get_or p.details [])
    → some_unless_empty (get_or p.details []) ≡ p.details
    → lower (get_or e.difficulty []) ≢ []
    → calculate_reverted_progress (calculate_new_progress p r e) r e [] medals ≡ p
unfolding calculate_reverted_progress calculate_new_progress revert_complete_maps
revert_undoes_complete_maps p r e s m c medals t hm hs hc set new pos stored named = ground (
  arith,
  to_set_id s set,
  drop_one-bump (lower (get_or e.difficulty [])) (get_or p.details []) pos,
  member-to_set-add (some m) s set,
  remove-to_set-add (some m) s set new,
)

-- The same for the type "complete_difficulty_range", which keeps no breakdown.
pub revert_undoes_difficulty_range :
    (p : QuestProgress) (r : Requirements) (e : EventData) (s : List (Option ℕ)) (m c : ℕ)
    (medals : List Text)
    → r.type ≡ some complete_difficulty_range
    → e.map_id ≡ some m
    → p.completed_map_ids ≡ some s
    → p.current ≡ some c
    → IsSetList s
    → member (some m) s ≡ false
    → calculate_reverted_progress (calculate_new_progress p r e) r e [] medals ≡ p
unfolding calculate_reverted_progress calculate_new_progress revert_difficulty_range
revert_undoes_difficulty_range p r e s m c medals t hm hs hc set new =
    ground (
      arith,
      to_set_id s set,
      member-to_set-add (some m) s set,
      remove-to_set-add (some m) s set new,
    )
