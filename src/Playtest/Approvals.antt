-- ===== src/Playtest/Approvals.antt =====
-- What an approval of a playtest (apps/api/services/playtest_service.py) means for the tables,
-- described apart from its statements.
use genjishimada.Base.{
  ℕ, ◌+◌, ◌*◌, ◌/◌, ◌≡◌, ◌≢◌, refl, ap, ◌∙◌, ◌&&◌, ◌≤◌, ◌<◌, ◌⊎◌, Bool, true, none, some, List, [],
  ◌∷◌, ◌==◌, arith, Bool-cases, Option-cases, inl, inr, if◌then◌else◌,
}
use mathlib.Core.Option
use native.Mathlib.Nat.{mul_assoc, mul_comm, div-add-mod, mod-lt}
use genjishimada.Base.Dict.{Dict, lookup}
use genjishimada.Base.Lists.{length, filter, find?, All, Some}
use genjishimada.Base.Rows.{update_where, count_where}
use genjishimada.Base.Text.{Text, codes}
use genjishimada.Difficulty.{Range}
use genjishimada.Playtest.Tables.{Map, Meta, Vote, Creator, Playtests, approved}
use genjishimada.Playtest.Repository.{
  Average, rounded, on_thread, total, get_map_id_from_thread, get_average_difficulty, get_map_code,
  get_primary_creator, approve_playtest, update_map, accept, complete,
}
use genjishimada.Playtest.Service.{convert_average}

-- The votes on a thread.
abbrev pub is_ballot : ℕ → Vote → Bool
is_ballot t v = t == v.playtest_thread_id

abbrev pub sum_of : List Vote → ℕ
sum_of [] = 0
sum_of (v ∷ votes) = v.difficulty + sum_of votes

abbrev pub ballots : ℕ → Playtests → List Vote
ballots t db = filter (is_ballot t) db.votes

-- The whole number nearest to a quotient, the greater one of two.
abbrev pub Nearest : ℕ → ℕ → ℕ → Type 0
Nearest d sum n = (2 * (d * n) ≤ 2 * sum + n) × (2 * sum + n < 2 * (d * n) + 2 * n)

-- A name of the extended scale that a quotient bears.
abbrev pub Named : List Range → ℕ → ℕ → Text → Type 0
Named ranges sum n name =
    Some (λ (r : Range). (r.name ≡ name) × (r.low * n ≤ sum) × (sum < r.high * n)) ranges
    ⊎ ((name ≡ codes "Hell") × (sum ≡ 1000 * n))

-- The playtest on the thread is completed, and the other ones are as they were.
abbrev pub Completed : ℕ → List Meta → List Meta → Type 0
Completed t [] [] = Unit
Completed t [] (y ∷ ys) = ⊥
Completed t (x ∷ xs) [] = ⊥
Completed t (x ∷ xs) (y ∷ ys) =
    (x.thread_id ≡ some t → y ≡ record x { completed = true })
    × (x.thread_id ≢ some t → y ≡ x)
    × Completed t xs ys

-- The tables before and after the map `m` of the thread's playtest is approved with the
-- difficulty `d`: the average of the votes on the thread.
abbrev pub Decided : ℕ → ℕ → Map → ℕ → Playtests → Playtests → Type 0
Decided t m old d db db' =
    Some (λ (x : Meta). (x.thread_id ≡ some t) × (x.map_id ≡ m)) db.meta
    × (0 < length (ballots t db))
    × Nearest d (sum_of (ballots t db)) (length (ballots t db))
    × (lookup m db.maps ≡ some old)
    × ((new : Map) × (lookup m db'.maps ≡ some new)
        × (new.playtesting ≡ approved)
        × (new.raw_difficulty ≡ d)
        × (new.code ≡ old.code)
        × (new.hidden ≡ old.hidden))
    × ((j : ℕ) → j ≢ m → lookup j db'.maps ≡ lookup j db.maps)
    × Completed t db.meta db'.meta
    × (db'.creators ≡ db.creators)
    × (db'.votes ≡ db.votes)
    × (db'.completions ≡ db.completions)

pub lookup-update_map :
    (j k : ℕ) (f : Map → Map) (d : Dict Map)
    → lookup j (update_map k f d) ≡ (if k == j then Option.map f (lookup j d) else lookup j d)
lookup-update_map j k f [] = ground arith
lookup-update_map j k f (e ∷ d) = ground (arith, lookup-update_map j k f d)

thread_found :
    (t m : ℕ) (rows : List Meta) (x : Meta)
    → find? (on_thread t) rows ≡ some x
    → x.map_id ≡ m
    → Some (λ (x : Meta). (x.thread_id ≡ some t) × (x.map_id ≡ m)) rows
thread_found t m [] x found same = absurd (ground arith)
thread_found t m (y ∷ rows) x found same = elim (Bool-cases (on_thread t y)) [
  | inl here ↦ inl (ground (arith, here), ground (arith, here))
  | inr apart ↦ inr (thread_found t m rows x (ground (arith, apart)) same)
]

map_found :
    (t m : ℕ) (db : Playtests)
    → get_map_id_from_thread t db ≡ some m
    → Some (λ (x : Meta). (x.thread_id ≡ some t) × (x.map_id ≡ m)) db.meta
unfolding get_map_id_from_thread
map_found t m db found = elim (Option-cases (find? (on_thread t) db.meta)) [
  | inl missing ↦ absurd (ground arith)
  | inr (x, e) ↦ thread_found t m db.meta x e (ground arith)
]

votes_counted :
    (t : ℕ) (votes : List Vote)
    → (count_where (λ (v : Vote). v.playtest_thread_id == t) votes
        ≡ length (filter (is_ballot t) votes))
      × (total t votes ≡ sum_of (filter (is_ballot t) votes))
votes_counted t [] = (refl, refl)
votes_counted t (v ∷ votes) = ground (arith, votes_counted t votes)

pub average_of :
    (t : ℕ) (db : Playtests) (a : Average)
    → get_average_difficulty t db ≡ some a
    → (a.sum ≡ sum_of (ballots t db)) × (a.terms ≡ length (ballots t db)) × (0 < a.terms)
unfolding get_average_difficulty
average_of t db a average = ground (arith, votes_counted t db.votes)

two_positive : (n : ℕ) → 0 < n → 0 < 2 * n
two_positive n p = omega arith

rounded-Nearest : (s n : ℕ) → 0 < n → Nearest ((2 * s + n) / (2 * n)) s n
rounded-Nearest s n p =
    let q = (2 * s + n) / (2 * n) in
    let twice : 2 * n * q ≡ 2 * (q * n) = mul_assoc 2 n q ∙ ap (λ (x : ℕ). 2 * x) (mul_comm n q) in
    let parts = div-add-mod (2 * s + n) (2 * n) in
    let small = mod-lt (2 * s + n) (two_positive n p) in
    (omega (arith, twice, parts), omega (arith, twice, parts, small))

Completed-rows :
    (t : ℕ) (rows : List Meta) → Completed t rows (update_where (on_thread t) complete rows)
Completed-rows t [] = tt
Completed-rows t (x ∷ rows) =
    (λ here. ground (arith, here), λ apart. ground (arith, apart), Completed-rows t rows)

pub approve_playtest-Decided :
    (t m : ℕ) (a : Average) (old : Map) (db : Playtests)
    → get_map_id_from_thread t db ≡ some m
    → get_average_difficulty t db ≡ some a
    → lookup m db.maps ≡ some old
    → Decided t m old (rounded a) db (approve_playtest m t (rounded a) db)
unfolding approve_playtest
approve_playtest-Decided t m a old db found average stored =
    let (same_sum, same_terms, some_votes) = average_of t db a average in
    (
      map_found t m db found,
      ground arith,
      rw (← same_sum, ← same_terms) (rounded-Nearest a.sum a.terms some_votes),
      stored,
      (
        accept (rounded a) old,
        ground (arith, lookup-update_map m m (accept (rounded a)) db.maps),
        refl,
        refl,
        refl,
        refl,
      ),
      λ j other. ground (arith, other, lookup-update_map j m (accept (rounded a)) db.maps),
      Completed-rows t db.meta,
      refl,
      refl,
      refl,
    )

pub convert_average-Named :
    (ranges : List Range) (a : Average) (name : Text)
    → convert_average ranges a ≡ some name
    → Named ranges a.sum a.terms name
unfolding convert_average
convert_average-Named [] a name h = ground arith
convert_average-Named (r ∷ ranges) a name h = ground (arith, convert_average-Named ranges a name)

-- The primary creator of a map, or that it has none.
abbrev pub IsPrimary : ℕ → ℕ → Creator → Type 0
IsPrimary m u c = (c.map_id ≡ m) × (c.is_primary ≡ true) × (c.user_id ≡ u)

abbrev is_primary_of : ℕ → Creator → Bool
is_primary_of m c = (c.map_id == m) && c.is_primary

IsPrimary-row :
    (m : ℕ) (rows : List Creator) (c : Creator)
    → find? (is_primary_of m) rows ≡ some c
    → Some (IsPrimary m c.user_id) rows
IsPrimary-row m [] c h = absurd (ground arith)
IsPrimary-row m (x ∷ rows) c h = elim (Bool-cases (is_primary_of m x)) [
  | inl here ↦ inl (ground (arith, here), ground (arith, here), ground (arith, here))
  | inr other ↦ inr (IsPrimary-row m rows c (ground (arith, other)))
]

no-IsPrimary_row :
    (m : ℕ) (rows : List Creator)
    → find? (is_primary_of m) rows ≡ none
    → All (λ (c : Creator). (u : ℕ) → ¬ IsPrimary m u c) rows
no-IsPrimary_row m [] h = tt
no-IsPrimary_row m (x ∷ rows) h =
    (λ u primary. ground (arith, primary), no-IsPrimary_row m rows (ground arith))

pub creator_found :
    (m u : ℕ) (db : Playtests)
    → get_primary_creator m db ≡ some u
    → Some (IsPrimary m u) db.creators
unfolding get_primary_creator
creator_found m u db h = elim (Option-cases (find? (is_primary_of m) db.creators)) [
  | inl missing ↦ absurd (ground arith)
  | inr (c, e) ↦
      let same : c.user_id ≡ u = ground arith in rw (← same) (IsPrimary-row m db.creators c e)
]

pub creator_missing :
    (m : ℕ) (db : Playtests)
    → get_primary_creator m db ≡ none
    → All (λ (c : Creator). (u : ℕ) → ¬ IsPrimary m u c) db.creators
unfolding get_primary_creator
creator_missing m db h = elim (Option-cases (find? (is_primary_of m) db.creators)) [
  | inl missing ↦ no-IsPrimary_row m db.creators missing
  | inr (c, e) ↦ absurd (ground arith)
]

-- An approval's code is that of the map as it was before.
pub code_found :
    (t m raw : ℕ) (code : Text) (db : Playtests)
    → get_map_code m (approve_playtest m t raw db) ≡ some code
    → (old : Map) × (lookup m db.maps ≡ some old) × (old.code ≡ code)
unfolding get_map_code approve_playtest
code_found t m raw code db h = elim (Option-cases (lookup m db.maps)) [
  | inl missing ↦ absurd (ground (arith, lookup-update_map m m (accept raw) db.maps))
  | inr (old, e) ↦ (old, e, ground (arith, lookup-update_map m m (accept raw) db.maps))
]
