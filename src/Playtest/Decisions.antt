-- ===== src/Playtest/Decisions.antt =====
-- The decision on a playtest: what an approval does and announces, and what it leaves.
use genjishimada.Base.{
  ℕ, ◌+◌, ◌*◌, ◌/◌, ◌≡◌, sym, ◌≤◌, ◌<◌, none, some, List, [], ◌∷◌, arith, leb, ltb, Option-cases,
  inl, inr,
}
use native.Mathlib.Nat.{mul-le-mul_right, mul-lt-mul_of_pos_right}
use genjishimada.Base.Dict.{lookup}
use genjishimada.Base.Outcome.{returned, raised}
use genjishimada.Base.Lists.{length, All, Some}
use genjishimada.Base.Text.{Text}
use genjishimada.Difficulty.{Range, ranges_all, convert_raw, convert_raw_all}
use genjishimada.Playtest.Tables.{Map, Creator, Playtests, creator_not_found}
use genjishimada.Playtest.Repository.{
  Average, rounded, get_map_id_from_thread, get_average_difficulty, get_map_code,
  get_primary_creator, approve_playtest, accept, text_or_empty,
}
use genjishimada.Playtest.Approvals.{
  Named, Decided, IsPrimary, sum_of, ballots, lookup-update_map, average_of,
  approve_playtest-Decided, convert_average-Named, creator_found, creator_missing, code_found,
}
use genjishimada.Playtest.Service.{PlaytestEvent, playtest_approved, convert_average, approve}

-- An approval of a playtest: the tables before and after, and the announcement, which names the map
-- by its code, a range of difficulty that the average falls in, and a primary creator of the map.
abbrev pub Approved : ℕ → ℕ → Playtests → PlaytestEvent → Playtests → Type 0
Approved t v db e db' =
    (m : ℕ) × (old : Map) × (d : ℕ) × (name : Text) × (creator : ℕ) × Decided t m old d db db'
    × Named ranges_all (sum_of (ballots t db)) (length (ballots t db)) name
    × Some (IsPrimary m creator) db.creators
    × (e ≡ playtest_approved old.code t name v creator)

no_playtest :
    (t v : ℕ) (db db' : Playtests) (e : PlaytestEvent)
    → get_map_id_from_thread t db ≡ none
    → ¬ (approve t v db ≡ returned e db')
unfolding approve
no_playtest t v db db' e missing done = ground arith

no_average :
    (t v m : ℕ) (db db' : Playtests) (e : PlaytestEvent)
    → get_map_id_from_thread t db ≡ some m
    → get_average_difficulty t db ≡ none
    → ¬ (approve t v db ≡ returned e db')
unfolding approve
no_average t v m db db' e found missing done = ground arith

approved_parts :
    (t v m : ℕ) (a : Average) (db db' : Playtests) (e : PlaytestEvent)
    → get_map_id_from_thread t db ≡ some m
    → get_average_difficulty t db ≡ some a
    → approve t v db ≡ returned e db'
    → (code : Text) × (name : Text) × (creator : ℕ) × (convert_average ranges_all a ≡ some name)
      × (e ≡ playtest_approved code t name v creator)
      × (db' ≡ approve_playtest m t (rounded a) db)
      × (get_map_code m (approve_playtest m t (rounded a) db) ≡ some code)
      × (get_primary_creator m (approve_playtest m t (rounded a) db) ≡ some creator)
unfolding approve
approved_parts t v m a db db' e found average done =
    let after = approve_playtest m t (rounded a) db in
    elim (Option-cases (get_map_code m after)) [
      | inl no_code ↦ absurd (ground arith)
      | inr (code, e1) ↦ elim (Option-cases (get_primary_creator m after)) [
        | inl no_creator ↦ absurd (ground arith)
        | inr (creator, e2) ↦ elim (Option-cases (convert_average ranges_all a)) [
          | inl no_name ↦ absurd (ground arith)
          | inr (name, e3) ↦ (code, name, creator, e3, ground arith, ground arith, e1, e2)
        ]
      ]
    ]

approval-Approved :
    (t v m : ℕ) (a : Average) (db db' : Playtests) (e : PlaytestEvent)
    → get_map_id_from_thread t db ≡ some m
    → get_average_difficulty t db ≡ some a
    → approve t v db ≡ returned e db'
    → Approved t v db e db'
unfolding approve_playtest
approval-Approved t v m a db db' e found average done =
    let (code, name, creator, named, event, tables, coded, created) =
      approved_parts t v m a db db' e found average done in
    let (old, stored, same_code) = code_found t m (rounded a) code db coded in
    let (same_sum, same_terms, _) = average_of t db a average in
    (
      m,
      old,
      rounded a,
      name,
      creator,
      rw tables (approve_playtest-Decided t m a old db found average stored),
      rw (← same_sum, ← same_terms) (convert_average-Named ranges_all a name named),
      creator_found m creator (approve_playtest m t (rounded a) db) created,
      rw same_code event,
    )

-- An approval needs a playtest on the thread and a vote, and the map of the playtest, whose status
-- it sets to approved and whose difficulty to the average of the votes on the thread, rounded to
-- two digits, a half upwards. The map keeps its code and whether it is hidden, every other map
-- stays, the playtest on the thread is completed and no other is touched, and votes, creators and
-- completions stay. It announces the map's code, a difficulty whose range the average falls in, and
-- a primary creator of the map.
pub approve_sound :
    (t v : ℕ) (db db' : Playtests) (e : PlaytestEvent)
    → approve t v db ≡ returned e db'
    → Approved t v db e db'
approve_sound t v db db' e done = elim (Option-cases (get_map_id_from_thread t db)) [
  | inl missing ↦ absurd (no_playtest t v db db' e missing done)
  | inr (m, found) ↦ elim (Option-cases (get_average_difficulty t db)) [
    | inl missing ↦ absurd (no_average t v m db db' e found missing done)
    | inr (a, average) ↦ approval-Approved t v m a db db' e found average done
  ]
]

scale_le : (l r n : ℕ) → l ≤ r → l * n ≤ r * n
scale_le l r n h = mul-le-mul_right n h

scale_lt : (l r n : ℕ) → l < r → 0 < n → l * n < r * n
scale_lt l r n h p = mul-lt-mul_of_pos_right h p

leb_scale : (l r n : ℕ) → 0 < n → leb (l * n) (r * n) ≡ leb l r
leb_scale l r n p = ground (arith, scale_le l r n, scale_lt r l n)

ltb_scale : (l r n : ℕ) → 0 < n → ltb (l * n) (r * n) ≡ ltb l r
ltb_scale l r n p = ground (arith, scale_le r l n, scale_lt l r n)

convert_whole :
    (ranges : List Range) (a : Average) (raw : ℕ)
    → a.sum ≡ raw * a.terms
    → 0 < a.terms
    → convert_average ranges a ≡ convert_raw ranges raw
unfolding convert_average convert_raw
convert_whole [] a raw whole some_votes =
    ground (arith, leb_scale 1000 raw a.terms some_votes, leb_scale raw 1000 a.terms some_votes)
convert_whole (r ∷ rs) a raw whole some_votes = ground (
  arith,
  leb_scale r.low raw a.terms some_votes,
  ltb_scale raw r.high a.terms some_votes,
  convert_whole rs a raw whole some_votes,
)

round_whole : (r s n : ℕ) → s ≡ r * n → 0 < n → (2 * s + n) / (2 * n) ≡ r
round_whole r s n h p = grind arith

some_votes :
    (t : ℕ) (db : Playtests) (a : Average) → get_average_difficulty t db ≡ some a → 0 < a.terms
unfolding get_average_difficulty
some_votes t db a average = ground arith

label_after :
    (m t raw : ℕ) (db : Playtests) (map : Map)
    → lookup m (approve_playtest m t raw db).maps ≡ some map
    → map.difficulty ≡ text_or_empty (convert_raw_all raw)
unfolding approve_playtest
label_after m t raw db map stored = elim (Option-cases (lookup m db.maps)) [
  | inl missing ↦ absurd (ground (arith, lookup-update_map m m (accept raw) db.maps))
  | inr (old, e) ↦ ground (arith, lookup-update_map m m (accept raw) db.maps)
]

same_label :
    (a : Average) (raw : ℕ)
    → a.sum ≡ raw * a.terms
    → 0 < a.terms
    → convert_raw_all (rounded a) ≡ convert_average ranges_all a
unfolding convert_raw_all
same_label a raw whole some_votes =
    rw (round_whole raw a.sum a.terms whole some_votes)
      (sym (convert_whole ranges_all a raw whole some_votes))

-- Where the average of the votes is a whole number of hundredths, the difficulty that an approval
-- announces is the name that the map then bears.
pub approve_names_agree :
    (t v m raw : ℕ) (a : Average) (map : Map) (code name : Text) (creator : ℕ) (db db' : Playtests)
    → approve t v db ≡ returned (playtest_approved code t name v creator) db'
    → get_map_id_from_thread t db ≡ some m
    → get_average_difficulty t db ≡ some a
    → a.sum ≡ raw * a.terms
    → lookup m db'.maps ≡ some map
    → map.difficulty ≡ name
approve_names_agree t v m raw a map code name creator db db' done found average whole stored =
    let (code', name', creator', named, event, tables, _, _) =
      approved_parts t v m a db db' (playtest_approved code t name v creator) found average done in
    let stored' : lookup m (approve_playtest m t (rounded a) db).maps ≡ some map =
      rw tables at stored in
    ground (
      arith,
      label_after m t (rounded a) db map stored',
      same_label a raw whole (some_votes t db a average),
    )

-- The tables of an approval of a map that has no primary creator.
abbrev pub ApprovedWithout : ℕ → Playtests → Playtests → Type 0
ApprovedWithout t db db' =
    (m : ℕ) × (old : Map) × (d : ℕ) × Decided t m old d db db'
    × All (λ (c : Creator). (u : ℕ) → ¬ IsPrimary m u c) db.creators

creator_missed :
    (t v m : ℕ) (a : Average) (db db' : Playtests)
    → get_map_id_from_thread t db ≡ some m
    → get_average_difficulty t db ≡ some a
    → approve t v db ≡ raised creator_not_found db'
    → (code : Text) × (get_map_code m (approve_playtest m t (rounded a) db) ≡ some code)
      × (get_primary_creator m (approve_playtest m t (rounded a) db) ≡ none)
      × (db' ≡ approve_playtest m t (rounded a) db)
unfolding approve
creator_missed t v m a db db' found average done =
    let after = approve_playtest m t (rounded a) db in
    elim (Option-cases (get_map_code m after)) [
      | inl no_code ↦ absurd (ground arith)
      | inr (code, e1) ↦ (code, e1, ground arith, ground arith)
    ]

missing_before :
    (t v : ℕ) (db db' : Playtests)
    → approve t v db ≡ raised creator_not_found db'
    → (m : ℕ) × (a : Average) × (get_map_id_from_thread t db ≡ some m)
      × (get_average_difficulty t db ≡ some a)
unfolding approve
missing_before t v db db' done = elim (Option-cases (get_map_id_from_thread t db)) [
  | inl missing ↦ absurd (ground arith)
  | inr (m, found) ↦ elim (Option-cases (get_average_difficulty t db)) [
    | inl missing ↦ absurd (ground arith)
    | inr (a, average) ↦ (m, a, found, average)
  ]
]

-- What is missing for the announcement is found missing too late: an approval that raises because
-- the map has no primary creator leaves the tables of an approval. The map of the thread's playtest
-- is approved with the rounded average of its votes and the playtest is completed, although the map
-- has no primary creator.
pub approve_raises_after_commit :
    (t v : ℕ) (db db' : Playtests)
    → approve t v db ≡ raised creator_not_found db'
    → ApprovedWithout t db db'
unfolding approve_playtest
approve_raises_after_commit t v db db' done =
    let (m, a, found, average) = missing_before t v db db' done in
    let (code, coded, uncreated, tables) = creator_missed t v m a db db' found average done in
    let (old, stored, _) = code_found t m (rounded a) code db coded in
    (
      m,
      old,
      rounded a,
      rw tables (approve_playtest-Decided t m a old db found average stored),
      creator_missing m (approve_playtest m t (rounded a) db) uncreated,
    )
