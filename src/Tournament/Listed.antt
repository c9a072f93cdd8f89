-- ===== src/Tournament/Listed.antt =====
-- Whom a leaderboard lists (`fetch_leaderboard` of
-- apps/api/repository/tournaments_repository.py).
use genjishimada.Base.{
  ℕ, suc, ◌≡◌, refl, ◌∙◌, arith, Bool, Option, none, some, List, [], ◌∷◌, ◌==◌, is_some, Bool-cases,
  inl, inr,
}
use genjishimada.Base.Dict.{Dict, lookup, insert, lookup-insert}
use genjishimada.Base.Lists.{any}
use genjishimada.Tournament.Tables.{Tournaments, Completion, Standing}
use genjishimada.Tournament.Leaderboard.{
  leads, better_run, best_per_user, values, insert_run, in_order, ranked_from, fetch_leaderboard,
}
use genjishimada.Tournament.EditionStreaks.{submitted}

-- A user has a run in a list.
abbrev pub runs_by : ℕ → List Completion → Bool
runs_by v xs = any (λ (x : Completion). v == x.user_id) xs

-- A user has a standing.
abbrev pub stands : ℕ → List Standing → Bool
stands v ss = any (λ (s : Standing). v == s.user_id) ss

stands-ranked_from : (v n : ℕ) (xs : List Completion) → stands v (ranked_from n xs) ≡ runs_by v xs
stands-ranked_from v n [] = refl
stands-ranked_from v n (x ∷ xs) = ground (arith, stands-ranked_from v (suc n) xs)

runs_by-insert_run :
    (v : ℕ) (x : Completion) (xs : List Completion)
    → runs_by v (insert_run x xs) ≡ runs_by v (x ∷ xs)
runs_by-insert_run v x [] = refl
runs_by-insert_run v x (y ∷ ys) = ground (arith, runs_by-insert_run v x ys)

runs_by-in_order : (v : ℕ) (xs : List Completion) → runs_by v (in_order xs) ≡ runs_by v xs
runs_by-in_order v [] = refl
runs_by-in_order v (x ∷ xs) =
    ground (arith, runs_by-insert_run v x (in_order xs), runs_by-in_order v xs)

-- Each run stands under its user's number.
abbrev pub ByUser : Dict Completion → Type 0
ByUser [] = Unit
ByUser (e ∷ d) = (e.1.user_id ≡ e.0) × ByUser d

ByUser-lookup :
    (u : ℕ) (b : Completion) (d : Dict Completion) → ByUser d → lookup u d ≡ some b → b.user_id ≡ u
ByUser-lookup u b [] h found = cc
ByUser-lookup u b (e ∷ d) (p, ps) found = ground (arith, ByUser-lookup u b d ps)

ByUser-insert :
    (u : ℕ) (b : Completion) (d : Dict Completion)
    → b.user_id ≡ u
    → ByUser d
    → ByUser (insert u b d)
ByUser-insert u b [] e h = (e, tt)
ByUser-insert u b (x ∷ d) e (p, ps) = elim (Bool-cases (u == x.0)) [
  | inl same ↦ rw same (e, ps)
  | inr other ↦ rw other (p, ByUser-insert u b d e ps)
]

better_run-user :
    (x : Completion) (o : Option Completion)
    → ((b : Completion) → o ≡ some b → b.user_id ≡ x.user_id)
    → (better_run x o).user_id ≡ x.user_id
better_run-user x none h = refl
better_run-user x (some y) h = elim (Bool-cases (leads x y)) [
  | inl ahead ↦ rw ahead refl
  | inr behind ↦ rw behind (h y refl)
]

best_per_user-ByUser : (c : ℕ) (xs : List Completion) → ByUser (best_per_user c xs)
best_per_user-ByUser c [] = tt
best_per_user-ByUser c (x ∷ xs) =
    let d = best_per_user c xs in
    let before = best_per_user-ByUser c xs in
    elim (Bool-cases (c == x.cycle_id)) [
      | inl here ↦ rw here (
          ByUser-insert x.user_id (better_run x (lookup x.user_id d)) d
            (better_run-user x (lookup x.user_id d)
              (λ b found. ByUser-lookup x.user_id b d before found))
            before)
      | inr elsewhere ↦ rw elsewhere before
    ]

runs_by-values :
    (v : ℕ) (d : Dict Completion) → ByUser d → runs_by v (values d) ≡ is_some (lookup v d)
runs_by-values v [] h = refl
runs_by-values v (e ∷ d) (p, ps) = ground (arith, p, runs_by-values v d ps)

has_best :
    (c v : ℕ) (xs : List Completion) → is_some (lookup v (best_per_user c xs)) ≡ submitted c v xs
has_best c v [] = refl
has_best c v (x ∷ xs) =
    let d = best_per_user c xs in
    ground (arith, has_best c v xs, lookup-insert v x.user_id (better_run x (lookup x.user_id d)) d)

-- A leaderboard lists exactly the users who have a run in the cycle, whatever the status of the
-- run: a user whose only runs are pending or rejected has a standing, too.
pub stands-fetch_leaderboard :
    (c v : ℕ) (t : Tournaments) → stands v (fetch_leaderboard c t) ≡ submitted c v t.completions
unfolding fetch_leaderboard
stands-fetch_leaderboard c v t =
    let d = best_per_user c t.completions in
    stands-ranked_from v 1 (in_order (values d))
    ∙ runs_by-in_order v (values d)
    ∙ runs_by-values v d (best_per_user-ByUser c t.completions)
    ∙ has_best c v t.completions
