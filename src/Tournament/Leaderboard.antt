-- ===== src/Tournament/Leaderboard.antt =====
-- `fetch_leaderboard` of apps/api/repository/tournaments_repository.py: the best run of each user,
-- ranked. Every run's user is in core.users, so the join drops nothing; the order by which RANK()
-- ranks ends with the user, so that a rank is a position.
use genjishimada.Base.{
  ℕ, suc, Bool, true, false, Option, none, some, List, [], ◌∷◌, ◌==◌, ltb, if◌then◌else◌,
}
use genjishimada.Base.Dict.{Dict, lookup, insert}
use genjishimada.Tournament.Tables.{Tournaments, Completion, RunStatus, Standing}

abbrev pub is_verified : RunStatus → Bool
is_verified RunStatus.verified = true
is_verified RunStatus.pending = false
is_verified RunStatus.rejected = false

-- `DESC` on a Boolean column: true comes first.
abbrev pub true_first : Bool → ℕ
true_first true = 0
true_first false = 1

-- `verified DESC, completion DESC, time ASC, inserted_at ASC, user_id ASC`
abbrev pub order_key : Completion → List ℕ
order_key x =
    true_first (is_verified x.status)
    ∷ true_first x.completion
    ∷ x.time
    ∷ x.inserted_at
    ∷ x.user_id
    ∷ []

abbrev pub lex_leb : List ℕ → List ℕ → Bool
lex_leb [] ys = true
lex_leb (x ∷ xs) [] = false
lex_leb (x ∷ xs) (y ∷ ys) = if ltb x y then true else if x == y then lex_leb xs ys else false

-- Whether the order puts a run before another.
unfoldable pub leads : Completion → Completion → Bool
leads a b = lex_leb (order_key a) (order_key b)

abbrev pub better_run : Completion → Option Completion → Completion
better_run x none = x
better_run x (some y) = if leads x y then x else y

-- `SELECT DISTINCT ON (tc.user_id)` among the runs of a cycle
abbrev pub best_per_user : ℕ → List Completion → Dict Completion
best_per_user c [] = []
best_per_user c (x ∷ xs) =
    let rest = best_per_user c xs in
    if c == x.cycle_id then insert x.user_id (better_run x (lookup x.user_id rest)) rest else rest

abbrev pub values : Dict Completion → List Completion
values [] = []
values (e ∷ d) = e.1 ∷ values d

abbrev pub insert_run : Completion → List Completion → List Completion
insert_run x [] = x ∷ []
insert_run x (y ∷ ys) = if leads x y then x ∷ y ∷ ys else y ∷ insert_run x ys

-- `ORDER BY`
abbrev pub in_order : List Completion → List Completion
in_order [] = []
in_order (x ∷ xs) = insert_run x (in_order xs)

abbrev pub ranked_from : ℕ → List Completion → List Standing
ranked_from n [] = []
ranked_from n (x ∷ xs) =
    record {
      rank = n;
      user_id = x.user_id;
      time = x.time;
      verified = is_verified x.status;
      completion = x.completion;
    }
    ∷ ranked_from (suc n) xs

-- `fetch_leaderboard`
unfoldable pub fetch_leaderboard : ℕ → Tournaments → List Standing
fetch_leaderboard c t = ranked_from 1 (in_order (values (best_per_user c t.completions)))
