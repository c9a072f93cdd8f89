-- ===== src/Tournament/Streaks.antt =====
-- What `award_edition_streaks` (apps/api/services/tournament_reward_service.py) does to the streaks.
use genjishimada.Base.{
  ℕ, ◌≡◌, ap, arith, Bool, true, false, Option, some, List, [], ◌∷◌, ◌==◌, if◌then◌else◌,
  Bool-cases, inl, inr,
}
use genjishimada.Base.Dict.{lookup, insert, lookup-insert}
use genjishimada.Economy.Action.{ok}
use genjishimada.Economy.Lootbox.{XpGrantEvent}
use genjishimada.Tournament.Tables.{Tournaments, Reason, Streak}
use genjishimada.Tournament.Action.{bind_ok, ◌>>=◌}
use genjishimada.Tournament.Repository.{has_keys, advanced, reset, advance_streak, has}
use genjishimada.Tournament.Rewards.{
  Gathered, bonus_of, grant_some, advance_participants, reset_others,
}
use genjishimada.Tournament.Grants.{grant_some-streaks}

-- The row that `advance_streak` writes.
abbrev pub new_streak : ℕ → Bool → Option Streak → Streak
new_streak c participated old = if participated then advanced c old else reset c old

pub advance_streak_ok :
    (u c : ℕ) (participated : Bool) (s : Streak) (t t' : Tournaments)
    → advance_streak u c participated t ≡ ok (s, t')
    → (has_keys c u t ≡ true)
      × (s ≡ new_streak c participated (lookup u t.streaks))
      × (t' ≡ record t { streaks = insert u s t.streaks })
unfolding advance_streak
advance_streak_ok u c participated s t t' h = ground arith

advance_streak-lookup :
    (u c : ℕ) (participated : Bool) (s : Streak) (t t' : Tournaments) (v : ℕ)
    → advance_streak u c participated t ≡ ok (s, t')
    → lookup v t'.streaks ≡ (
        if u == v
        then some (new_streak c participated (lookup v t.streaks))
        else lookup v t.streaks)
advance_streak-lookup u c participated s t t' v h =
    let (_, new, e) = advance_streak_ok u c participated s t t' h in
    elim (Bool-cases (u == v)) [
      | inl same ↦
          let eq : u ≡ v = ground arith in
          rw (e, new, same)
            (ground (
              arith,
              eq,
              lookup-insert v u (new_streak c participated (lookup u t.streaks)) t.streaks,
            ))
      | inr other ↦ rw (e, other) (ground (arith, lookup-insert v u s t.streaks))
    ]

advanced_idem : (c : ℕ) (o : Option Streak) → advanced c (some (advanced c o)) ≡ advanced c o
advanced_idem c o = ground arith

reset_idem : (c : ℕ) (o : Option Streak) → reset c (some (reset c o)) ≡ reset c o
reset_idem c o = ground arith

-- The participants' loop advances the streak of each of them, once.
pub advance_participants-lookup :
    (g : Gathered) (c : ℕ) (us : List ℕ) (pending evs : List XpGrantEvent) (t t' : Tournaments)
    (v : ℕ)
    → advance_participants g c us pending t ≡ ok (evs, t')
    → lookup v t'.streaks
      ≡ (if has v us then some (advanced c (lookup v t.streaks)) else lookup v t.streaks)
unfolding advance_participants
advance_participants-lookup g c [] pending evs t t' v h = ground arith
advance_participants-lookup g c (u ∷ us) pending evs t t' v h =
    let (s, t1, first, then_grant) =
      bind_ok (advance_streak u c true)
        (λ (s : Streak). λ t1.
          (grant_some u (bonus_of g u s.current_streak) c Reason.streak pending
              >>= advance_participants g c us)
            t1)
        evs t t' h in
    let (pending', t2, second, rest) =
      bind_ok (grant_some u (bonus_of g u s.current_streak) c Reason.streak pending)
        (advance_participants g c us) evs t1 t' then_grant in
    let kept =
      grant_some-streaks u (bonus_of g u s.current_streak) c Reason.streak pending pending' t1 t2
        second in
    ground (
      arith,
      ap (λ d. lookup v d) kept,
      advance_streak-lookup u c true s t t1 v first,
      advance_participants-lookup g c us pending' evs t2 t' v rest,
      advanced_idem c (lookup v t.streaks),
    )

-- The loop over the others resets each of them.
pub reset_others-lookup :
    (c : ℕ) (us : List ℕ) (x : Unit {0}) (t t' : Tournaments) (v : ℕ)
    → reset_others c us t ≡ ok (x, t')
    → lookup v t'.streaks
      ≡ (if has v us then some (reset c (lookup v t.streaks)) else lookup v t.streaks)
unfolding reset_others
reset_others-lookup c [] x t t' v h = ground arith
reset_others-lookup c (u ∷ us) x t t' v h =
    let (s, t1, first, rest) =
      bind_ok (advance_streak u c false) (λ _. reset_others c us) x t t' h in
    ground (
      arith,
      advance_streak-lookup u c false s t t1 v first,
      reset_others-lookup c us x t1 t' v rest,
      reset_idem c (lookup v t.streaks),
    )
