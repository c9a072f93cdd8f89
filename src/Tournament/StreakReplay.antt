-- ===== src/Tournament/StreakReplay.antt =====
-- A second delivery of an edition's results, streak by streak
-- (`award_edition_streaks` of apps/api/services/tournament_reward_service.py).
use genjishimada.Base.{
  ℕ, ◌≡◌, refl, ap, arith, Bool, true, false, some, List, [], ◌∷◌, ◌==◌, if◌then◌else◌, Bool-cases,
  inl, inr,
}
use genjishimada.Base.Dict.{Dict, lookup, insert, lookup-insert_self}
use genjishimada.Base.Lists.{All}
use genjishimada.Economy.Action.{ok}
use genjishimada.Economy.Lootbox.{XpGrantEvent}
use genjishimada.Tournament.Tables.{Tournaments, Reason, Streak}
use genjishimada.Tournament.Action.{bind_ok, ◌>>=◌}
use genjishimada.Tournament.Repository.{has_keys, advanced, advance_streak, has}
use genjishimada.Tournament.Rewards.{
  Gathered, bonus_of, grant_some, advance_participants, reset_others,
}
use genjishimada.Tournament.Ledger.{Paid, Paid-refl, Paid-trans, claimed}
use genjishimada.Tournament.Grants.{grant_some-Paid, grant_some_replayed, grant_some-streaks}
use genjishimada.Tournament.Streaks.{advance_streak_ok, advance_participants-lookup, new_streak}

insert_same : (k : ℕ) (v : Streak) (d : Dict Streak) → lookup k d ≡ some v → insert k v d ≡ d
insert_same k v [] h = cc
insert_same k v (e ∷ d) h = elim (Bool-cases (k == e.0)) [
  | inl same ↦ ground arith
  | inr other ↦ rw other (ap (λ x. e ∷ x) (insert_same k v d (rw other at h)))
]

-- A participant whose streak is counted and whose bonus, if any, is in the ledger.
abbrev pub Counted : Gathered → ℕ → Tournaments → ℕ → Type 0
Counted g c t u =
    (s : Streak) × (lookup u t.streaks ≡ some s)
    × (s.last_cycle_id ≡ some c)
    × (has_keys c u t ≡ true)
    × ((bonus_of g u s.current_streak == 0) ≡ false → claimed c u Reason.streak t ≡ true)

-- A user whose streak is at 0 for this edition.
abbrev pub AtZero : ℕ → Tournaments → ℕ → Type 0
AtZero c t u =
    (s : Streak) × (lookup u t.streaks ≡ some s)
    × (s.last_cycle_id ≡ some c)
    × (s.current_streak ≡ 0)
    × (has_keys c u t ≡ true)

pub advance_streak-Paid :
    (u c : ℕ) (participated : Bool) (s : Streak) (t t' : Tournaments)
    → advance_streak u c participated t ≡ ok (s, t')
    → Paid t t'
advance_streak-Paid u c participated s t t' h =
    let (_, _, e) = advance_streak_ok u c participated s t t' h in
    rw e (record {
      unique = λ h. h;
      kept = λ c u r h. h;
      categories = refl;
      completions = refl;
      has_keys_kept = λ c u h. h;
      multiplier = refl;
      balance = λ u. refl;
    })

advance_streak_same :
    (u c : ℕ) (participated : Bool) (s : Streak) (t : Tournaments)
    → has_keys c u t ≡ true
    → lookup u t.streaks ≡ some s
    → new_streak c participated (some s) ≡ s
    → advance_streak u c participated t ≡ ok (s, t)
unfolding advance_streak
advance_streak_same u c participated s t keys_there found same =
    rw (keys_there, found, same, insert_same u s t.streaks found) refl

pub advance_participants_replayed :
    (g : Gathered) (c : ℕ) (us : List ℕ) (pending : List XpGrantEvent) (t : Tournaments)
    → All (Counted g c t) us
    → advance_participants g c us pending t ≡ ok (pending, t)
unfolding advance_participants
advance_participants_replayed g c [] pending t h = refl
advance_participants_replayed g c (u ∷ us) pending t ((s, found, last, keys_there, paid), rest) =
    rw
      (
        advance_streak_same u c true s t keys_there found (ground (arith, last)),
        grant_some_replayed u (bonus_of g u s.current_streak) c Reason.streak pending t paid,
      )
      (advance_participants_replayed g c us pending t rest)

pub reset_others_replayed :
    (c : ℕ) (us : List ℕ) (t : Tournaments) → All (AtZero c t) us → reset_others c us t ≡ ok (tt, t)
unfolding reset_others
reset_others_replayed c [] t h = refl
reset_others_replayed c (u ∷ us) t ((s, found, last, zero_streak, keys_there), rest) =
    rw (advance_streak_same u c false s t keys_there found (ground (arith, last, zero_streak)))
      (reset_others_replayed c us t rest)

-- Advancing again a streak that is counted leaves it.
advanced_kept :
    (c u : ℕ) (us : List ℕ) (d d' : Dict Streak)
    → lookup u d' ≡ (if has u us then some (advanced c (lookup u d)) else lookup u d)
    → (s : Streak) → lookup u d ≡ some s
    → s.last_cycle_id ≡ some c
    → lookup u d' ≡ some s
advanced_kept c u us d d' h s found last = ground (arith, last)

-- What holds of a participant outlasts the rest of the loop.
pub Counted-kept :
    (g : Gathered) (c u : ℕ) (t t' : Tournaments)
    → Paid t t'
    → ((s : Streak)
        → lookup u t.streaks ≡ some s
        → s.last_cycle_id ≡ some c
        → lookup u t'.streaks ≡ some s)
    → Counted g c t u
    → Counted g c t' u
Counted-kept g c u t t' paid streaks (s, found, last, keys_there, row) = (
  s,
  streaks s found last,
  last,
  paid.has_keys_kept c u keys_there,
  λ bonus. paid.kept c u Reason.streak (row bonus),
)

-- A participant's round of the loop, where it succeeds, counts the participant.
Counted-first :
    (g : Gathered) (c u : ℕ) (s : Streak) (pending pending' : List XpGrantEvent)
    (t t1 t2 : Tournaments)
    → advance_streak u c true t ≡ ok (s, t1)
    → grant_some u (bonus_of g u s.current_streak) c Reason.streak pending t1 ≡ ok (pending', t2)
    → Paid t t2 × Counted g c t2 u
Counted-first g c u s pending pending' t t1 t2 first second =
    let x = bonus_of g u s.current_streak in
    let (keys_there, new, e) = advance_streak_ok u c true s t t1 first in
    let (granted, row) = grant_some-Paid u x c Reason.streak pending pending' t1 t2 second in
    let streaks = grant_some-streaks u x c Reason.streak pending pending' t1 t2 second in
    (
      Paid-trans (advance_streak-Paid u c true s t t1 first) granted,
      (
        s,
        ground (arith, ap (λ d. lookup u d) streaks, lookup-insert_self u s t.streaks),
        ground (arith, new),
        granted.has_keys_kept c u (rw e keys_there),
        row,
      ),
    )

-- The participants' loop keeps the ledger, and leaves every participant counted.
pub advance_participants-Counted :
    (g : Gathered) (c : ℕ) (us : List ℕ) (pending evs : List XpGrantEvent) (t t' : Tournaments)
    → advance_participants g c us pending t ≡ ok (evs, t')
    → Paid t t' × All (Counted g c t') us
unfolding advance_participants
advance_participants-Counted g c [] pending evs t t' h =
    let same : t' ≡ t = ground arith in rw same (Paid-refl t, tt)
advance_participants-Counted g c (u ∷ us) pending evs t t' h =
    let (s, t1, first, then_grant) =
      bind_ok (advance_streak u c true)
        (λ (s : Streak) t1.
          (grant_some u (bonus_of g u s.current_streak) c Reason.streak pending
              >>= advance_participants g c us)
            t1)
        evs t t' h in
    let (pending', t2, second, rest) =
      bind_ok (grant_some u (bonus_of g u s.current_streak) c Reason.streak pending)
        (advance_participants g c us) evs t1 t' then_grant in
    let (paid, here) = Counted-first g c u s pending pending' t t1 t2 first second in
    let (later, counted) = advance_participants-Counted g c us pending' evs t2 t' rest in
    (
      Paid-trans paid later,
      (
        Counted-kept g c u t2 t' later
            (advanced_kept c u us t2.streaks t'.streaks
              (advance_participants-lookup g c us pending' evs t2 t' u rest))
            here,
        counted,
      ),
    )
