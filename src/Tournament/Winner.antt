-- ===== src/Tournament/Winner.antt =====
-- The winner of a cycle (`_build_cycle_completed_event` of
-- apps/api/services/tournament_outbox_service.py).
use genjishimada.Base.{
  ℕ, ◌≡◌, refl, arith, true, Option, none, some, List, [], ◌∷◌, ◌==◌, if◌then◌else◌, Bool-cases,
  inl, inr, ◌⊎◌,
}
use genjishimada.Base.Dict.{Dict, lookup, insert}
use genjishimada.Base.Lists.{All}
use genjishimada.Tournament.Tables.{Tournaments, Completion}
use genjishimada.Tournament.Leaderboard.{
  leads, better_run, best_per_user, values, in_order, ranked_from, fetch_leaderboard,
}
use genjishimada.Tournament.Outbox.{winner_of, build_cycle_completed_event}
use genjishimada.Tournament.Order.{in_order-head, All-unordered, All-in_order}
use genjishimada.Tournament.Standings.{All-beaten_by, All-values, best_per_user-AllBeaten}

-- A run is one of a list.
abbrev pub IsAmong : Completion → List Completion → Type 0
IsAmong w [] = ⊥
IsAmong w (x ∷ xs) = (w ≡ x) ⊎ IsAmong w xs

-- A run of the cycle, among those of a list.
abbrev pub IsRunOf : ℕ → List Completion → Completion → Type 0
IsRunOf c xs w = ((c == w.cycle_id) ≡ true) × IsAmong w xs

All-weaken :
    (c : ℕ) (x : Completion) (xs ys : List Completion)
    → All (IsRunOf c xs) ys
    → All (IsRunOf c (x ∷ xs)) ys
All-weaken c x xs [] h = tt
All-weaken c x xs (y ∷ ys) ((here, among), ps) = ((here, inr among), All-weaken c x xs ys ps)

All-insert :
    (P : Completion → Type 0) (u : ℕ) (b : Completion) (d : Dict Completion)
    → P b
    → All P (values d)
    → All P (values (insert u b d))
All-insert P u b [] p ps = (p, tt)
All-insert P u b (e ∷ d) p (q, qs) = elim (Bool-cases (u == e.0)) [
  | inl same ↦ rw same (p, qs)
  | inr other ↦ rw other (q, All-insert P u b d p qs)
]

better_run-either :
    (P : Completion → Type 0) (x : Completion) (o : Option Completion)
    → P x
    → ((b : Completion) → o ≡ some b → P b)
    → P (better_run x o)
better_run-either P x none p h = p
better_run-either P x (some y) p h = elim (Bool-cases (leads x y)) [
  | inl ahead ↦ rw ahead p
  | inr behind ↦ rw behind (h y refl)
]

All-same :
    (P : Completion → Type 0) (d d' : Dict Completion)
    → d' ≡ d
    → All P (values d)
    → All P (values d')
All-same P d d' e h = rw e h

best_per_user-IsRunOf :
    (c : ℕ) (xs : List Completion) → All (IsRunOf c xs) (values (best_per_user c xs))
best_per_user-IsRunOf c [] = tt
best_per_user-IsRunOf c (x ∷ xs) =
    let d = best_per_user c xs in
    let before = All-weaken c x xs (values d) (best_per_user-IsRunOf c xs) in
    elim (Bool-cases (c == x.cycle_id)) [
      | inl here ↦
          let best =
            better_run-either (IsRunOf c (x ∷ xs)) x (lookup x.user_id d) (here, inl refl)
              (λ b found. All-values (IsRunOf c (x ∷ xs)) x.user_id b d found before) in
          let all =
            All-insert (IsRunOf c (x ∷ xs)) x.user_id (better_run x (lookup x.user_id d)) d best
              before in
          All-same (IsRunOf c (x ∷ xs)) (insert x.user_id (better_run x (lookup x.user_id d)) d)
            (best_per_user c (x ∷ xs)) (rw here refl) all
      | inr elsewhere ↦
          All-same (IsRunOf c (x ∷ xs)) d (best_per_user c (x ∷ xs)) (rw elsewhere refl) before
    ]

-- The winning run: it is a run of the cycle, by the winner, and leads every run of the cycle.
abbrev pub Wins : ℕ → ℕ → List Completion → Completion → Type 0
Wins c u xs w =
    (w.user_id ≡ u)
    × IsRunOf c xs w
    × All (λ (x : Completion). (if c == x.cycle_id then leads w x else true) ≡ true) xs

All-leads_in :
    (c : ℕ) (w : Completion) (xs : List Completion)
    → All (λ (x : Completion). (c == x.cycle_id) ≡ true → leads w x ≡ true) xs
    → All (λ (x : Completion). (if c == x.cycle_id then leads w x else true) ≡ true) xs
All-leads_in c w [] h = tt
All-leads_in c w (x ∷ xs) (p, ps) = elim (Bool-cases (c == x.cycle_id)) [
  | inl here ↦ (rw here (p here), All-leads_in c w xs ps)
  | inr elsewhere ↦ (rw elsewhere refl, All-leads_in c w xs ps)
]

winner-cases :
    (c u : ℕ) (xs ranked : List Completion)
    → in_order (values (best_per_user c xs)) ≡ ranked
    → winner_of (ranked_from 1 ranked) ≡ some u
    → (w : Completion) × Wins c u xs w
winner-cases c u xs [] e h = cc
winner-cases c u xs (w ∷ ws) e h =
    let d = best_per_user c xs in
    let runs : All (IsRunOf c xs) (w ∷ ws) =
      rw e at (All-in_order (IsRunOf c xs) (values d) (best_per_user-IsRunOf c xs)) in
    let ahead =
      All-unordered (λ (y : Completion). leads w y ≡ true) (values d)
        (in_order-head w ws (values d) e) in
    let led = All-beaten_by c w d xs ahead (best_per_user-AllBeaten c xs) in
    (w, (ground arith, runs.0, All-leads_in c w xs led))

-- The winner that the event of a finished cycle names has a run in the cycle that comes before
-- every other run of the cycle, in the order of the leaderboard: verified runs first, then those
-- with a video, then the faster, then the earlier, then the smaller user.
pub build_cycle_completed_event-Wins :
    (c k u : ℕ) (t : Tournaments)
    → (build_cycle_completed_event t (c, k)).winner_user_id ≡ some u
    → (w : Completion) × Wins c u t.completions w
unfolding build_cycle_completed_event fetch_leaderboard
build_cycle_completed_event-Wins c k u t h =
    winner-cases c u t.completions (in_order (values (best_per_user c t.completions))) refl h
