-- ===== src/Tournament/Untouched.antt =====
-- The awards of apps/api/services/tournament_reward_service.py and the tables that
-- they do not write.
use genjishimada.Base.{ℕ, ◌≡◌, arith, Bool, true, false, List, [], ◌∷◌, ◌==◌, Bool-cases, inl, inr}
use genjishimada.Economy.Action.{ok}
use genjishimada.Economy.Lootbox.{XpGrantEvent}
use genjishimada.Tournament.Tables.{Tournaments, Reason, Standing, CycleCompleted}
use genjishimada.Tournament.Action.{Step, bind_ok, done, reads, ◌>>=◌}
use genjishimada.Tournament.Repository.{advance_streak, fetch_category, fetch_all_streak_user_ids}
use genjishimada.Tournament.Rewards.{
  Gathered, bonus_of, gathered, marker_of, grant_some, award_places, award_cycle_placements,
  placement_tiers, advance_participants, reset_others, others, edition_streaks,
  award_edition_streaks,
}
use genjishimada.Tournament.Grants.{ledger_grant_cases}
use genjishimada.Tournament.Placements.{prize}
use genjishimada.Tournament.Streaks.{advance_streak_ok}

-- Only experience, ledger and streaks differ.
abbrev pub SameRest : Tournaments → Tournaments → Type 0
SameRest t t' =
    t' ≡ record t { economy = t'.economy; xp_grants = t'.xp_grants; streaks = t'.streaks }

pub SameRest-trans : (t t' t'' : Tournaments) → SameRest t t' → SameRest t' t'' → SameRest t t''
SameRest-trans t t' t'' p q = ground arith

-- An operation that leaves the rest wherever it succeeds.
abbrev pub Leaves : {A : Type 0} → Step A → Type 0
Leaves {A} m = (a : A) (t t' : Tournaments) → m t ≡ ok (a, t') → SameRest t t'

Leaves-bind :
    {A B : Type 0} (m : Step A) (f : A → Step B)
    → Leaves m
    → ((a : A) → Leaves (f a))
    → Leaves (m >>= f)
Leaves-bind m f hm hf b t t'' h =
    let (a, t', first, rest) = bind_ok m f b t t'' h in
    SameRest-trans t t' t'' (hm a t t' first) (hf a b t' t'' rest)

Leaves-done : {A : Type 0} (a : A) → Leaves (done a)
Leaves-done a b t t' h = ground arith

Leaves-reads : {A : Type 0} (f : Tournaments → A) → Leaves (reads f)
Leaves-reads f b t t' h = ground arith

Leaves-grant :
    (u x c : ℕ) (r : Reason) (pending : List XpGrantEvent) → Leaves (grant_some u x c r pending)
Leaves-grant u x c r pending evs t t' h = elim (Bool-cases (x == 0)) [
  | inl nothing ↦ ground arith
  | inr something ↦ elim (ledger_grant_cases u x c r pending evs t t' (rw something at h)) [
    | inl (again, e) ↦ ground (arith, e)
    | inr (fresh, e) ↦ ground (arith, e)
  ]
]

Leaves-advance : (u c : ℕ) (b : Bool) → Leaves (advance_streak u c b)
Leaves-advance u c b s t t' h =
    let (_, _, e) = advance_streak_ok u c b s t t' h in ground (arith, e)

Leaves-places :
    (tiers : List (ℕ × ℕ)) (c : ℕ) (ss : List Standing) (pending : List XpGrantEvent)
    → Leaves (award_places tiers c ss pending)
unfolding award_places
Leaves-places tiers c [] pending = Leaves-done pending
Leaves-places tiers c (s ∷ ss) pending =
    Leaves-bind (grant_some s.user_id (prize tiers s) c Reason.placement pending) _
      (Leaves-grant s.user_id (prize tiers s) c Reason.placement pending)
      (λ pending'. Leaves-places tiers c ss pending')

pub Leaves-placements : (e : CycleCompleted) → Leaves (award_cycle_placements e)
unfolding award_cycle_placements
Leaves-placements e =
    Leaves-bind (reads (fetch_category e.category_id)) _
      (Leaves-reads (fetch_category e.category_id))
      (λ category. Leaves-places (placement_tiers category) e.cycle_id e.standings [])

Leaves-participants :
    (g : Gathered) (c : ℕ) (us : List ℕ) (pending : List XpGrantEvent)
    → Leaves (advance_participants g c us pending)
unfolding advance_participants
Leaves-participants g c [] pending = Leaves-done pending
Leaves-participants g c (u ∷ us) pending =
    Leaves-bind (advance_streak u c true) _ (Leaves-advance u c true) (λ s.
      Leaves-bind (grant_some u (bonus_of g u s.current_streak) c Reason.streak pending) _
        (Leaves-grant u (bonus_of g u s.current_streak) c Reason.streak pending)
        (λ pending'. Leaves-participants g c us pending'))

Leaves-others : (c : ℕ) (us : List ℕ) → Leaves (reset_others c us)
unfolding reset_others
Leaves-others c [] = Leaves-done tt
Leaves-others c (u ∷ us) =
    Leaves-bind (advance_streak u c false) _ (Leaves-advance u c false) (λ _. Leaves-others c us)

Leaves-edition : (g : Gathered) (c : ℕ) → Leaves (edition_streaks g c)
Leaves-edition g c =
    Leaves-bind (advance_participants g c g.participants_union []) _
      (Leaves-participants g c g.participants_union [])
      (λ pending.
        Leaves-bind (reads fetch_all_streak_user_ids) _ (Leaves-reads fetch_all_streak_user_ids)
          (λ tracked.
            Leaves-bind (reset_others c (others g.participants_union tracked)) _
              (Leaves-others c (others g.participants_union tracked)) (λ _. Leaves-done pending)))

pub Leaves-streaks : (es : List CycleCompleted) → Leaves (award_edition_streaks es)
unfolding award_edition_streaks
Leaves-streaks [] evs t t' h = Leaves-done [] evs t t' h
Leaves-streaks (e ∷ es) evs t t' h =
    Leaves-edition (gathered t (e ∷ es)) (marker_of e es) evs t t' h
