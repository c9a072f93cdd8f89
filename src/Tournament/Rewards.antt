-- ===== src/Tournament/Rewards.antt =====
-- `TournamentRewardService` (apps/api/services/tournament_reward_service.py): experience for taking
-- part, for a place and for a streak. Python's sets are lists without repetition, in some order.
use genjishimada.Base.{
  ℕ, max, true, false, not, Option, none, some, List, [], ◌∷◌, ◌==◌, get_or, if◌then◌else◌,
}
use genjishimada.Base.Dict.{Dict, lookup, insert, contains}
use genjishimada.Base.Lists.{filter}
use genjishimada.Economy.Lootbox.{XpGrantEvent, grant_xp}
use genjishimada.Tournament.Tables.{Tournaments, Category, Reason, Standing, CycleCompleted}
use genjishimada.Tournament.Action.{Step, done, reads, on_economy, ◌>>=◌}
use genjishimada.Tournament.Repository.{
  fetch_category, claim_xp_grant, advance_streak, fetch_all_streak_user_ids,
  fetch_cycle_participants, has, put,
}

-- The part of `_grant_xp` after a new row.
unfoldable pub after_claim : ℕ → ℕ → List XpGrantEvent → Step (List XpGrantEvent)
unfolding grant_xp
after_claim u x pending = do change ← on_economy (grant_xp u x pending); done (change.1)

-- `_grant_xp`: the events pending after it
unfoldable pub ledger_grant : ℕ → ℕ → ℕ → Reason → List XpGrantEvent → Step (List XpGrantEvent)
unfolding claim_xp_grant after_claim
ledger_grant u x c r pending = do
  claimed ← claim_xp_grant c u r x
  (if claimed then after_claim u x pending else done pending)

-- A grant, unless the amount is 0.
abbrev pub grant_some : ℕ → ℕ → ℕ → Reason → List XpGrantEvent → Step (List XpGrantEvent)
grant_some u x c r pending = if x == 0 then done pending else ledger_grant u x c r pending

abbrev pub participation_xp_of : Option Category → ℕ
participation_xp_of none = 0
participation_xp_of (some k) = k.participation_xp

-- `award_participation`, of the cycle with this id and category
unfoldable pub award_participation : ℕ → ℕ → ℕ → Step (List XpGrantEvent)
unfolding ledger_grant
award_participation c k u = do
  category ← reads (fetch_category k)
  grant_some u (participation_xp_of category) c Reason.participation []

-- `{tier.place: tier.xp for tier in tiers}`: a later tier replaces an earlier one
abbrev pub tiers_into : Dict ℕ → List (ℕ × ℕ) → Dict ℕ
tiers_into d [] = d
tiers_into d ((k, x) ∷ tiers) = tiers_into (insert k x d) tiers

abbrev pub placement_tiers : Option Category → Dict ℕ
placement_tiers none = []
placement_tiers (some k) = tiers_into [] k.placement_xp

abbrev pub streak_tiers : Option Category → Dict ℕ
streak_tiers none = []
streak_tiers (some k) = tiers_into [] k.streak_xp

-- The loop over the standings.
unfoldable pub award_places :
    Dict ℕ → ℕ → List Standing → List XpGrantEvent → Step (List XpGrantEvent)
unfolding ledger_grant
award_places tiers c [] pending = done pending
award_places tiers c (s ∷ ss) pending = do
  pending' ← grant_some s.user_id (get_or (lookup s.rank tiers) 0) c Reason.placement pending
  award_places tiers c ss pending'

-- `award_cycle_placements`: without a category there are no tiers, and nothing is granted.
unfoldable pub award_cycle_placements : CycleCompleted → Step (List XpGrantEvent)
unfolding award_places
award_cycle_placements e = do
  category ← reads (fetch_category e.category_id)
  award_places (placement_tiers category) e.cycle_id e.standings []

-- `max(entry.cycle_id for entry in results)`
abbrev pub marker_of : CycleCompleted → List CycleCompleted → ℕ
marker_of e [] = e.cycle_id
marker_of e (e' ∷ es) = max e.cycle_id (marker_of e' es)

-- `participants_union`, `categories_played` and `streak_tiers_by_category`
pub record Gathered : Type 0 where
  pub participants_union : List ℕ
  pub categories_played : Dict (List ℕ)
  pub streak_tiers_by_category : Dict (Dict ℕ)

abbrev pub gather_user : ℕ → ℕ → Gathered → Gathered
gather_user k u g = record g {
  participants_union = put u g.participants_union;
  categories_played =
      insert u (put k (get_or (lookup u g.categories_played) [])) g.categories_played;
}

abbrev pub gather_users : ℕ → List ℕ → Gathered → Gathered
gather_users k [] g = g
gather_users k (u ∷ us) g = gather_users k us (gather_user k u g)

abbrev pub gather_tiers : Tournaments → ℕ → Gathered → Gathered
gather_tiers t k g = if contains k g.streak_tiers_by_category then g else record g {
  streak_tiers_by_category =
      insert k (streak_tiers (fetch_category k t)) g.streak_tiers_by_category;
}

-- The first loop of `award_edition_streaks`.
abbrev pub gather : Tournaments → List CycleCompleted → Gathered → Gathered
gather t [] g = g
gather t (e ∷ es) g = gather t es (
    gather_users e.category_id (fetch_cycle_participants e.cycle_id t)
      (gather_tiers t e.category_id g))

-- The most generous tier at this streak among the categories.
abbrev pub best_bonus : Dict (Dict ℕ) → ℕ → List ℕ → ℕ
best_bonus tiers n [] = 0
best_bonus tiers n (k ∷ ks) =
    max (get_or (lookup n (get_or (lookup k tiers) [])) 0) (best_bonus tiers n ks)

abbrev pub bonus_of : Gathered → ℕ → ℕ → ℕ
bonus_of g u n = best_bonus g.streak_tiers_by_category n (get_or (lookup u g.categories_played) [])

-- The loop over the participants.
unfoldable pub advance_participants :
    Gathered → ℕ → List ℕ → List XpGrantEvent → Step (List XpGrantEvent)
unfolding advance_streak ledger_grant
advance_participants g c [] pending = done pending
advance_participants g c (u ∷ us) pending = do
  s ← advance_streak u c true
  pending' ← grant_some u (bonus_of g u s.current_streak) c Reason.streak pending
  advance_participants g c us pending'

-- The loop over the tracked users who did not take part.
unfoldable pub reset_others : ℕ → List ℕ → Step (Unit {0})
unfolding advance_streak
reset_others c [] = done tt
reset_others c (u ∷ us) = advance_streak u c false >>= λ _. reset_others c us

abbrev pub others : List ℕ → List ℕ → List ℕ
others us tracked = filter (λ v. not (has v us)) tracked

abbrev pub gathered : Tournaments → List CycleCompleted → Gathered
gathered t es =
    gather t es
      (record { participants_union = []; categories_played = []; streak_tiers_by_category = [] })

abbrev pub edition_streaks : Gathered → ℕ → Step (List XpGrantEvent)
edition_streaks g c = do
  pending ← advance_participants g c g.participants_union []
  tracked ← reads fetch_all_streak_user_ids
  reset_others c (others g.participants_union tracked) >>= λ _. done pending

-- `award_edition_streaks`
unfoldable pub award_edition_streaks : List CycleCompleted → Step (List XpGrantEvent)
unfolding advance_participants reset_others
award_edition_streaks [] t = done [] t
award_edition_streaks (e ∷ es) t = edition_streaks (gathered t (e ∷ es)) (marker_of e es) t
