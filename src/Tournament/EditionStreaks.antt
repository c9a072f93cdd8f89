-- ===== src/Tournament/EditionStreaks.antt =====
-- Who took part in an edition, and what `award_edition_streaks`
-- (apps/api/services/tournament_reward_service.py) makes of everyone's streak.
use genjishimada.Base.{
  opt_eq, max, ◌+◌, ℕ, ◌≤◌, ◌≡◌, refl, sym, ap, ◌∙◌, arith, Bool, true, false, not, ◌&&◌, Option,
  none, some, List, [], ◌∷◌, ◌==◌, is_some, if◌then◌else◌, Bool-cases, inl, inr,
}
use genjishimada.Base.Dict.{Dict, lookup, keys}
use genjishimada.Base.Lists.{any}
use genjishimada.Economy.Action.{ok}
use genjishimada.Economy.Lootbox.{XpGrantEvent}
use genjishimada.Tournament.Tables.{Tournaments, Streak, Completion, CycleCompleted}
use genjishimada.Tournament.Action.{bind_ok, done, ◌>>=◌}
use genjishimada.Tournament.Repository.{advanced, participants_of, has, put}
use genjishimada.Tournament.Rewards.{
  Gathered, gather, gathered, gather_users, gather_user, gather_tiers, marker_of,
  advance_participants, reset_others, others, edition_streaks, award_edition_streaks,
}
use genjishimada.Tournament.Streaks.{advance_participants-lookup, reset_others-lookup}

pub has-keys : (v : ℕ) (d : Dict Streak) → has v (keys d) ≡ is_some (lookup v d)
has-keys v [] = refl
has-keys v (e ∷ d) = ground (arith, has-keys v d)

pub has-others :
    (v : ℕ) (us tracked : List ℕ) → has v (others us tracked) ≡ (has v tracked && not (has v us))
has-others v us [] = refl
has-others v us (u ∷ tracked) = elim (Bool-cases (v == u)) [
  | inl same ↦
      let eq : v ≡ u = ground arith in rw (sym eq) (ground (arith, has-others v us tracked))
  | inr other ↦ ground (arith, has-others v us tracked)
]

has-put : (v u : ℕ) (us : List ℕ) → has v (put u us) ≡ (if v == u then true else has v us)
has-put v u us = elim (Bool-cases (v == u)) [
  | inl same ↦ let eq : v ≡ u = ground arith in rw (sym eq) (ground arith)
  | inr other ↦ ground arith
]

-- A user has a run in a cycle.
abbrev pub submitted : ℕ → ℕ → List Completion → Bool
submitted c u runs = any (λ (x : Completion). (c == x.cycle_id) && (u == x.user_id)) runs

-- A user has a run in one of the cycles of an edition.
abbrev pub took_part : ℕ → List CycleCompleted → Tournaments → Bool
took_part u es t = any (λ (e : CycleCompleted). submitted e.cycle_id u t.completions) es

has-participants_of :
    (c v : ℕ) (runs : List Completion) → has v (participants_of c runs) ≡ submitted c v runs
has-participants_of c v [] = refl
has-participants_of c v (x ∷ runs) =
    ground (arith, has-participants_of c v runs, has-put v x.user_id (participants_of c runs))

has-gather_users :
    (k v : ℕ) (us : List ℕ) (g : Gathered)
    → has v (gather_users k us g).participants_union
      ≡ (if has v us then true else has v g.participants_union)
has-gather_users k v [] g = refl
has-gather_users k v (u ∷ us) g =
    ground (arith, has-gather_users k v us (gather_user k u g), has-put v u g.participants_union)

has-gather :
    (v : ℕ) (t : Tournaments) (es : List CycleCompleted) (g : Gathered)
    → has v (gather t es g).participants_union
      ≡ (if has v g.participants_union then true else took_part v es t)
has-gather v t [] g = ground arith
has-gather v t (e ∷ es) g =
    let k = e.category_id in
    let us = participants_of e.cycle_id t.completions in
    ground (
      arith,
      has-gather v t es (gather_users k us (gather_tiers t k g)),
      has-gather_users k v us (gather_tiers t k g),
      has-participants_of e.cycle_id v t.completions,
    )

has-gathered :
    (v : ℕ) (t : Tournaments) (es : List CycleCompleted)
    → has v (gathered t es).participants_union ≡ took_part v es t
has-gathered v t es =
    has-gather v t es
      (record { participants_union = []; categories_played = []; streak_tiers_by_category = [] })

-- The streak that an edition makes of the one a user has.
abbrev pub edition_streak : Bool → ℕ → Option Streak → Option Streak
edition_streak true c none =
    some (record { current_streak = 1; max_streak = 1; last_cycle_id = some c })
edition_streak true c (some s) =
    if opt_eq s.last_cycle_id (some c)
    then some s
    else some (record {
      current_streak = s.current_streak + 1;
      max_streak = max s.max_streak (s.current_streak + 1);
      last_cycle_id = some c;
    })
edition_streak false c none = none
edition_streak false c (some s) =
    some (record { current_streak = 0; max_streak = s.max_streak; last_cycle_id = some c })

edition_streak-advanced :
    (c : ℕ) (old : Option Streak) → edition_streak true c old ≡ some (advanced c old)
edition_streak-advanced c none = refl
edition_streak-advanced c (some s) = ground arith

edition_streaks-lookup :
    (g : Gathered) (c v : ℕ) (evs : List XpGrantEvent) (t t' : Tournaments)
    → edition_streaks g c t ≡ ok (evs, t')
    → lookup v t'.streaks ≡ edition_streak (has v g.participants_union) c (lookup v t.streaks)
edition_streaks-lookup g c v evs t t' h =
    let us = g.participants_union in
    let (pending, t1, first, then_reset) =
      bind_ok (advance_participants g c us [])
        (λ pending t1. (reset_others c (others us (keys t1.streaks)) >>= λ _. done pending) t1) evs
        t t' h in
    let (x, t2, second, finished) =
      bind_ok (reset_others c (others us (keys t1.streaks))) (λ _. done pending) evs t1 t'
        then_reset in
    ground (
      arith,
      advance_participants-lookup g c us [] pending t t1 v first,
      reset_others-lookup c (others us (keys t1.streaks)) x t1 t2 v second,
      has-others v us (keys t1.streaks),
      has-keys v t1.streaks,
      edition_streak-advanced c (lookup v t.streaks),
    )

-- After the streaks of an edition: a user who has a run in any of its cycles is one further than
-- before (or starts at 1), and only once however many cycles that were, unless this edition was
-- counted already; a tracked user without a run is at 0 with the best streak kept; and a user who
-- is neither stays untracked.
pub award_edition_streaks-lookup :
    (e : CycleCompleted) (es : List CycleCompleted) (v : ℕ) (evs : List XpGrantEvent)
    (t t' : Tournaments)
    → award_edition_streaks (e ∷ es) t ≡ ok (evs, t')
    → lookup v t'.streaks
      ≡ edition_streak (took_part v (e ∷ es) t) (marker_of e es) (lookup v t.streaks)
unfolding award_edition_streaks
award_edition_streaks-lookup e es v evs t t' h =
    edition_streaks-lookup (gathered t (e ∷ es)) (marker_of e es) v evs t t' h
    ∙ ap (λ b. edition_streak b (marker_of e es) (lookup v t.streaks)) (has-gathered v t (e ∷ es))

abbrev pub IsBounded : Option Streak → Type 0
IsBounded none = Unit
IsBounded (some s) = s.current_streak ≤ s.max_streak

edition_streak-IsBounded :
    (b : Bool) (c : ℕ) (o : Option Streak) → IsBounded o → IsBounded (edition_streak b c o)
edition_streak-IsBounded true c none h = omega arith
edition_streak-IsBounded true c (some s) h = ground (arith, h)
edition_streak-IsBounded false c none h = tt
edition_streak-IsBounded false c (some s) h = omega arith

IsBounded-same : (o o' : Option Streak) → o' ≡ o → IsBounded o → IsBounded o'
IsBounded-same o o' e h = rw e h

-- A streak is never longer than the best streak.
abbrev pub StreaksBounded : Tournaments → Type 0
StreaksBounded t = (v : ℕ) → IsBounded (lookup v t.streaks)

-- Awarding the streaks of an edition keeps every streak at most as long as the best streak beside it.
pub award_edition_streaks-StreaksBounded :
    (es : List CycleCompleted) (evs : List XpGrantEvent) (t t' : Tournaments)
    → StreaksBounded t
    → award_edition_streaks es t ≡ ok (evs, t')
    → StreaksBounded t'
unfolding award_edition_streaks
award_edition_streaks-StreaksBounded [] evs t t' bounded h v =
    let same : t' ≡ t = ground arith in
    IsBounded-same (lookup v t.streaks) (lookup v t'.streaks)
      (ap (λ (x : Tournaments). lookup v x.streaks) same) (bounded v)
award_edition_streaks-StreaksBounded (e ∷ es) evs t t' bounded h v =
    let b = took_part v (e ∷ es) t in
    IsBounded-same (edition_streak b (marker_of e es) (lookup v t.streaks)) (lookup v t'.streaks)
      (award_edition_streaks-lookup e es v evs t t' h)
      (edition_streak-IsBounded b (marker_of e es) (lookup v t.streaks) (bounded v))
