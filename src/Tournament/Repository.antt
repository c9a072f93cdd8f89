-- ===== src/Tournament/Repository.antt =====
-- The statements of apps/api/repository/tournaments_repository.py behind the rewards. A violation
-- of a foreign key raises; a streak that is there belongs to a user who is there.
use genjishimada.Base.{
  ℕ, suc, max, Bool, true, false, ◌&&◌, Option, none, some, List, [], ◌∷◌, ◌==◌, opt_eq,
  if◌then◌else◌,
}
use genjishimada.Base.Dict.{lookup, insert, contains, keys}
use genjishimada.Base.Lists.{any}
use genjishimada.Economy.Action.{foreign_key_violation}
use genjishimada.Tournament.Tables.{Tournaments, Category, Reason, Grant, Streak, Completion}
use genjishimada.Tournament.Action.{Step, done, fail}

-- `fetch_category`
abbrev pub fetch_category : ℕ → Tournaments → Option Category
fetch_category i t = lookup i t.categories

abbrev pub has_keys : ℕ → ℕ → Tournaments → Bool
has_keys c u t = contains c t.cycles && contains u t.economy.users

abbrev pub same_reason : Reason → Reason → Bool
same_reason Reason.participation Reason.participation = true
same_reason Reason.placement Reason.placement = true
same_reason Reason.streak Reason.streak = true
same_reason _ _ = false

-- `UNIQUE (cycle_id, user_id, reason)`
abbrev pub is_grant : ℕ → ℕ → Reason → Grant → Bool
is_grant c u r g = (c == g.cycle_id) && (u == g.user_id) && same_reason r g.reason

-- `claim_xp_grant`: whether the row is new
unfoldable pub claim_xp_grant : ℕ → ℕ → Reason → ℕ → Step Bool
claim_xp_grant c u r x t =
    let row : Grant = record { cycle_id = c; user_id = u; reason = r; amount = x } in
    if any (is_grant c u r) t.xp_grants
    then done false t
    else if has_keys c u t
    then done true (record t { xp_grants = row ∷ t.xp_grants })
    else fail foreign_key_violation t

-- The row that a participant's streak becomes: `ON CONFLICT` with its `CASE`.
abbrev pub advanced : ℕ → Option Streak → Streak
advanced c none = record { current_streak = 1; max_streak = 1; last_cycle_id = some c }
advanced c (some s) =
    if opt_eq s.last_cycle_id (some c) then record s { last_cycle_id = some c } else record {
      current_streak = suc s.current_streak;
      max_streak = max s.max_streak (suc s.current_streak);
      last_cycle_id = some c;
    }

-- The row that the streak of a user becomes who did not take part.
abbrev pub reset : ℕ → Option Streak → Streak
reset c none = record { current_streak = 0; max_streak = 0; last_cycle_id = some c }
reset c (some s) = record s { current_streak = 0; last_cycle_id = some c }

-- `advance_streak`
unfoldable pub advance_streak : ℕ → ℕ → Bool → Step Streak
advance_streak u c participated t =
    let old = lookup u t.streaks in
    let new = if participated then advanced c old else reset c old in
    if has_keys c u t
    then done new (record t { streaks = insert u new t.streaks })
    else fail foreign_key_violation t

-- `fetch_all_streak_user_ids`
abbrev pub fetch_all_streak_user_ids : Tournaments → List ℕ
fetch_all_streak_user_ids t = keys t.streaks

abbrev pub has : ℕ → List ℕ → Bool
has u us = any (λ v. u == v) us

-- `set.add`, and `DISTINCT`
abbrev pub put : ℕ → List ℕ → List ℕ
put u us = if has u us then us else u ∷ us

abbrev pub participants_of : ℕ → List Completion → List ℕ
participants_of c [] = []
participants_of c (x ∷ xs) =
    let rest = participants_of c xs in if c == x.cycle_id then put x.user_id rest else rest

-- `fetch_cycle_participants`, in some order
abbrev pub fetch_cycle_participants : ℕ → Tournaments → List ℕ
fetch_cycle_participants c t = participants_of c t.completions
