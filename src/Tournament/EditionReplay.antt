-- ===== src/Tournament/EditionReplay.antt =====
-- The whole of `award_edition_streaks` (apps/api/services/tournament_reward_service.py), delivered
-- twice.
use genjishimada.Base.{
  ℕ, ◌≡◌, refl, ap, ◌∙◌, arith, true, false, some, List, [], ◌∷◌, ◌==◌, is_some, if◌then◌else◌,
  Bool-cases, inl, inr,
}
use genjishimada.Base.Dict.{Dict, lookup, insert, keys, lookup-insert, lookup-insert_self}
use genjishimada.Base.Lists.{All}
use genjishimada.Economy.Action.{ok}
use genjishimada.Economy.Lootbox.{XpGrantEvent}
use genjishimada.Tournament.Tables.{Tournaments, Streak, CycleCompleted}
use genjishimada.Tournament.Action.{bind_ok, done, ◌>>=◌}
use genjishimada.Tournament.Repository.{reset, advance_streak, has, fetch_cycle_participants}
use genjishimada.Tournament.Rewards.{
  Gathered, gather, gathered, gather_users, gather_tiers, marker_of, advance_participants,
  reset_others, others, edition_streaks, award_edition_streaks,
}
use genjishimada.Tournament.Ledger.{Paid, Paid-refl, Paid-trans}
use genjishimada.Tournament.Streaks.{advance_streak_ok, reset_others-lookup}
use genjishimada.Tournament.EditionStreaks.{has-keys, has-others}
use genjishimada.Tournament.StreakReplay.{
  AtZero, Counted, Counted-kept, advance_streak-Paid, advance_participants-Counted,
  advance_participants_replayed, reset_others_replayed,
}

-- A property passed on along a list, from an item of the list to another property of it.
All-map :
    {P Q : ℕ → Type 0} (us : List ℕ) → ((u : ℕ) → has u us ≡ true → P u → Q u) → All P us → All Q us
All-map [] f h = tt
All-map (u ∷ us) f (p, ps) = (f u (ground arith) p, All-map us (λ v here. f v (ground arith)) ps)

keys-insert :
    (k : ℕ) (v : Streak) (d : Dict Streak)
    → is_some (lookup k d) ≡ true
    → keys (insert k v d) ≡ keys d
keys-insert k v [] h = cc
keys-insert k v (e ∷ d) h = elim (Bool-cases (k == e.0)) [
  | inl same ↦ ground arith
  | inr other ↦ rw other (ap (λ x. e.0 ∷ x) (keys-insert k v d (rw other at h)))
]

still_tracked :
    (u v : ℕ) (s : Streak) (d d' : Dict Streak)
    → d' ≡ insert u s d
    → is_some (lookup v d) ≡ true
    → is_some (lookup v d') ≡ true
still_tracked u v s d d' e h = rw e (ground (arith, lookup-insert v u s d))

-- The loop over the others adds no row, where each of them is tracked.
reset_others-keys :
    (c : ℕ) (us : List ℕ) (x : Unit {0}) (t t' : Tournaments)
    → ((v : ℕ) → has v us ≡ true → is_some (lookup v t.streaks) ≡ true)
    → reset_others c us t ≡ ok (x, t')
    → keys t'.streaks ≡ keys t.streaks
unfolding reset_others
reset_others-keys c [] x t t' tracked h = let same : t' ≡ t = ground arith in rw same refl
reset_others-keys c (u ∷ us) x t t' tracked h =
    let (s, t1, first, rest) =
      bind_ok (advance_streak u c false) (λ _. reset_others c us) x t t' h in
    let (_, new, e) = advance_streak_ok u c false s t t1 first in
    let same : t1.streaks ≡ insert u s t.streaks = ap (λ (y : Tournaments). y.streaks) e in
    reset_others-keys c us x t1 t'
      (λ v here. still_tracked u v s t.streaks t1.streaks same (tracked v (ground arith))) rest
    ∙ ap (λ d. keys d) same
    ∙ keys-insert u s t.streaks (tracked u (ground arith))

reset_kept :
    (c u : ℕ) (us : List ℕ) (d d' : Dict Streak) (s : Streak)
    → lookup u d' ≡ (if has u us then some (reset c (lookup u d)) else lookup u d)
    → lookup u d ≡ some s
    → s.last_cycle_id ≡ some c
    → s.current_streak ≡ 0
    → lookup u d' ≡ some s
reset_kept c u us d d' s h found last zero_streak = ground (arith, last, zero_streak)

AtZero-kept :
    (c u : ℕ) (us : List ℕ) (t t' : Tournaments)
    → Paid t t'
    → lookup u t'.streaks
      ≡ (if has u us then some (reset c (lookup u t.streaks)) else lookup u t.streaks)
    → AtZero c t u
    → AtZero c t' u
AtZero-kept c u us t t' paid kept (s, found, last, zero_streak, keys_there) = (
  s,
  reset_kept c u us t.streaks t'.streaks s kept found last zero_streak,
  last,
  zero_streak,
  paid.has_keys_kept c u keys_there,
)

AtZero-first :
    (c u : ℕ) (s : Streak) (t t1 : Tournaments)
    → advance_streak u c false t ≡ ok (s, t1)
    → AtZero c t1 u
AtZero-first c u s t t1 first =
    let (keys_there, new, e) = advance_streak_ok u c false s t t1 first in
    (
      s,
      ground (arith, lookup-insert_self u s t.streaks),
      ground (arith, new),
      ground (arith, new),
      rw e keys_there,
    )

-- The loop over the others keeps the ledger, and leaves each of them at 0.
reset_others-AtZero :
    (c : ℕ) (us : List ℕ) (x : Unit {0}) (t t' : Tournaments)
    → reset_others c us t ≡ ok (x, t')
    → Paid t t' × All (AtZero c t') us
unfolding reset_others
reset_others-AtZero c [] x t t' h = let same : t' ≡ t = ground arith in rw same (Paid-refl t, tt)
reset_others-AtZero c (u ∷ us) x t t' h =
    let (s, t1, first, rest) =
      bind_ok (advance_streak u c false) (λ _. reset_others c us) x t t' h in
    let (later, zeros) = reset_others-AtZero c us x t1 t' rest in
    let kept = reset_others-lookup c us x t1 t' u rest in
    (
      Paid-trans (advance_streak-Paid u c false s t t1 first) later,
      (AtZero-kept c u us t1 t' later kept (AtZero-first c u s t t1 first), zeros),
    )

gather_same :
    (t t' : Tournaments) (es : List CycleCompleted) (g : Gathered)
    → Paid t t'
    → gather t' es g ≡ gather t es g
gather_same t t' [] g p = refl
gather_same t t' (e ∷ es) g p =
    rw (p.categories, p.completions)
      (gather_same t t' es
        (gather_users e.category_id (fetch_cycle_participants e.cycle_id t)
          (gather_tiers t e.category_id g))
        p)

-- What a participant keeps while the others are reset.
Counted-others :
    (g : Gathered) (c u : ℕ) (us tracked : List ℕ) (t t' : Tournaments)
    → Paid t t'
    → lookup u t'.streaks ≡ (
        if has u (others us tracked)
        then some (reset c (lookup u t.streaks))
        else lookup u t.streaks)
    → has u us ≡ true
    → Counted g c t u
    → Counted g c t' u
Counted-others g c u us tracked t t' paid kept here counted =
    Counted-kept g c u t t' paid
      (λ s found last. ground (arith, kept, found, here, has-others u us tracked)) counted

edition_streaks_replayed :
    (g : Gathered) (c : ℕ) (t1 t2 : Tournaments) (x : Unit {0})
    → All (Counted g c t1) g.participants_union
    → Paid t1 t2
    → All (AtZero c t2) (others g.participants_union (keys t1.streaks))
    → reset_others c (others g.participants_union (keys t1.streaks)) t1 ≡ ok (x, t2)
    → edition_streaks g c t2 ≡ ok ([], t2)
edition_streaks_replayed g c t1 t2 x counted paid zeros ran =
    let us = g.participants_union in
    let os = others us (keys t1.streaks) in
    let same_keys : keys t2.streaks ≡ keys t1.streaks =
      reset_others-keys c os x t1 t2
        (λ v here. ground (arith, has-others v us (keys t1.streaks), has-keys v t1.streaks)) ran in
    let still =
      All-map us
        (λ u here.
          Counted-others g c u us (keys t1.streaks) t1 t2 paid
            (reset_others-lookup c os x t1 t2 u ran) here)
        counted in
    rw
      (
        advance_participants_replayed g c us [] t2 still,
        same_keys,
        reset_others_replayed c os t2 zeros,
      )
      refl

edition_streaks_once :
    (g : Gathered) (c : ℕ) (evs : List XpGrantEvent) (t t' : Tournaments)
    → edition_streaks g c t ≡ ok (evs, t')
    → Paid t t' × (edition_streaks g c t' ≡ ok ([], t'))
edition_streaks_once g c evs t t' h =
    let us = g.participants_union in
    let (pending, t1, first, then_reset) =
      bind_ok (advance_participants g c us [])
        (λ pending t1. (reset_others c (others us (keys t1.streaks)) >>= λ _. done pending) t1) evs
        t t' h in
    let (x, t2, second, finished) =
      bind_ok (reset_others c (others us (keys t1.streaks))) (λ _. done pending) evs t1 t'
        then_reset in
    let (paid, counted) = advance_participants-Counted g c us [] pending t t1 first in
    let (later, zeros) = reset_others-AtZero c (others us (keys t1.streaks)) x t1 t2 second in
    let same : t' ≡ t2 = ground arith in
    rw same (Paid-trans paid later, edition_streaks_replayed g c t1 t2 x counted later zeros second)

pub award_edition_streaks-Paid :
    (es : List CycleCompleted) (evs : List XpGrantEvent) (t t' : Tournaments)
    → award_edition_streaks es t ≡ ok (evs, t')
    → Paid t t' × (award_edition_streaks es t' ≡ ok ([], t'))
unfolding award_edition_streaks
award_edition_streaks-Paid [] evs t t' h =
    let same : t' ≡ t = ground arith in rw same (Paid-refl t, refl)
award_edition_streaks-Paid (e ∷ es) evs t t' h =
    let (paid, again) = edition_streaks_once (gathered t (e ∷ es)) (marker_of e es) evs t t' h in
    let nothing : Gathered = record {
      participants_union = [];
      categories_played = [];
      streak_tiers_by_category = [];
    } in
    (
      paid,
      ap (λ g. edition_streaks g (marker_of e es) t') (gather_same t t' (e ∷ es) nothing paid)
          ∙ again,
    )

-- A second delivery of the results of an edition, before those of another edition, grants nothing
-- and moves no streak: it leaves the tables as the first one left them, and no event to publish.
pub award_edition_streaks_once :
    (es : List CycleCompleted) (evs : List XpGrantEvent) (t t' : Tournaments)
    → award_edition_streaks es t ≡ ok (evs, t')
    → award_edition_streaks es t' ≡ ok ([], t')
award_edition_streaks_once es evs t t' h = (award_edition_streaks-Paid es evs t t' h).1
