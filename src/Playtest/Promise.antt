-- ===== src/Playtest/Promise.antt =====
-- A promise of the tables of playtests on votes, difficulties and their names, through every call of
-- apps/api/services/playtest_service.py.
use genjishimada.Base.{
  ℕ, ◌+◌, ◌*◌, ◌/◌, ◌≡◌, refl, ◌≤◌, ◌<◌, ◌⊎◌, Bool, true, false, ◌&&◌, some, List, [], ◌∷◌, ◌==◌,
  arith, Bool-cases, Option-cases, inl, inr, if◌then◌else◌,
}
use genjishimada.Base.Dict.{Dict}
use genjishimada.Base.Int.{ℤ, pos_part}
use genjishimada.Base.Lists.{All, any}
use genjishimada.Base.Rows.{count_where, All-update_where, All-delete_where}
use genjishimada.Base.Outcome.{state_of}
use genjishimada.Base.Text.{Text}
use genjishimada.Difficulty.{convert_raw_all, midpoints}
use genjishimada.Playtest.Tables.{Map, Vote, Playtests}
use genjishimada.Playtest.Service.{
  cast_vote, delete_vote, delete_all_votes, approve, force_accept, force_deny, reset, midpoint_of,
  reset_playtest,
}
use genjishimada.Playtest.Repository.{
  is_vote, set_vote, is_users_vote, upsert_vote, insert_vote, is_on_thread, total, Average, rounded,
  get_average_difficulty, update_map, accept, deny, get_map_id_from_thread, fits_column, may_vote,
  in_difficulty_range, approve_playtest, force_deny_playtest, remove_vote, remove_all_votes,
  delete_completions_for_playtest, text_or_empty,
}

abbrev pub InScale : Vote → Type 0
InScale v = v.difficulty ≤ 1000

abbrev pub Labelled : ℕ × Map → Type 0
Labelled e =
    (e.1.raw_difficulty ≤ 1000)
    × (e.1.difficulty ≡ text_or_empty (convert_raw_all e.1.raw_difficulty))

abbrev pub PlaytestWf : Playtests → Type 0
PlaytestWf db = All InScale db.votes × All Labelled db.maps

pub total_bound :
    (t : ℕ) (votes : List Vote)
    → All InScale votes
    → total t votes ≤ 1000 * count_where (is_on_thread t) votes
total_bound t [] h = omega arith
total_bound t (v ∷ votes) h = ground (arith, h.0, total_bound t votes h.1)

pub rounded_bound : (s n : ℕ) → s ≤ 1000 * n → 0 < n → (2 * s + n) / (2 * n) ≤ 1000
rounded_bound s n h p = grind arith

pub average_bound :
    (t : ℕ) (db : Playtests) (a : Average)
    → All InScale db.votes
    → get_average_difficulty t db ≡ some a
    → (a.sum ≤ 1000 * a.terms) × (0 < a.terms)
unfolding get_average_difficulty
average_bound t db a h found = ground (arith, total_bound t db.votes h)

All-if :
    (P : ℕ × Map → Type 0) (b : Bool) (x y : ℕ × Map) (xs ys : Dict Map)
    → P x × All P xs
    → P y × All P ys
    → All P (if b then x ∷ xs else y ∷ ys)
All-if P true x y xs ys h h' = h
All-if P false x y xs ys h h' = h'

pub maps_kept :
    (k : ℕ) (f : Map → Map) (d : Dict Map)
    → ((e : ℕ × Map) → Labelled e → Labelled (e.0, f e.1))
    → All Labelled d
    → All Labelled (update_map k f d)
maps_kept k f [] keeps h = tt
maps_kept k f (e ∷ d) keeps h =
    All-if Labelled (k == e.0) (e.0, f e.1) e d (update_map k f d) (keeps e h.0, h.1)
      (h.0, maps_kept k f d keeps h.1)

pub accept-Labelled : (raw : ℕ) (e : ℕ × Map) → raw ≤ 1000 → Labelled (e.0, accept raw e.1)
accept-Labelled raw e bound = (bound, refl)

upsert_kept :
    (new : Vote) (votes : List Vote)
    → InScale new
    → All InScale votes
    → All InScale (upsert_vote new votes)
upsert_kept new votes bound h =
    elim (Bool-cases (any (is_vote new.user_id new.map_id new.playtest_thread_id) votes)) [
      | inl e ↦ rw e (
          All-update_where InScale (is_vote new.user_id new.map_id new.playtest_thread_id)
            (set_vote new.difficulty) votes (λ v k. bound) h)
      | inr e ↦ rw e (bound, h)
    ]

-- The calls that change tables.
pub data Call : Type 0 where
  casts : ℕ → ℕ → ℤ → Call
  removes : ℕ → ℕ → Call
  clears : ℕ → Call
  approves : ℕ → ℕ → Call
  accepts : ℕ → Text → ℕ → Call
  denies : ℕ → ℕ → Call
  resets : ℕ → ℕ → Bool → Bool → Call

-- The tables after a call.
abbrev pub handle : Call → Playtests → Playtests
handle (casts t u d) db = state_of (cast_vote t u d db)
handle (removes t u) db = state_of (delete_vote t u db)
handle (clears t) db = state_of (delete_all_votes t db)
handle (approves t v) db = state_of (approve t v db)
handle (accepts t name v) db = state_of (force_accept t name v db)
handle (denies t v) db = state_of (force_deny t v db)
handle (resets t v votes completions) db = state_of (reset t v votes completions db)

abbrev pub handle_all : List Call → Playtests → Playtests
handle_all [] db = db
handle_all (c ∷ calls) db = handle_all calls (handle c db)

parts :
    (db db' : Playtests) (votes : List Vote) (maps : Dict Map)
    → db'.votes ≡ votes
    → db'.maps ≡ maps
    → All InScale votes × All Labelled maps
    → PlaytestWf db'
parts db db' votes maps e1 e2 h = rw (e1, e2) h

cast_vote-cases :
    (t u : ℕ) (d : ℤ) (db : Playtests)
    → (state_of (cast_vote t u d db) ≡ db)
      ⊎ ((m : ℕ) × (pos_part d ≤ 1000)
          × (state_of (cast_vote t u d db) ≡ record db {
            votes =
                upsert_vote
                  (record {
                    user_id = u;
                    map_id = m;
                    playtest_thread_id = t;
                    difficulty = pos_part d;
                  })
                  db.votes;
          }))
unfolding cast_vote insert_vote
cast_vote-cases t u d db = elim (Option-cases (get_map_id_from_thread t db)) [
  | inl e ↦ inl (ground arith)
  | inr (m, e) ↦ elim (Bool-cases (fits_column d && may_vote u m db && in_difficulty_range d)) [
    | inl good ↦ inr (m, ground arith, ground arith)
    | inr bad ↦ inl (ground arith)
  ]
]

approve_tables :
    (t v : ℕ) (db : Playtests)
    → (state_of (approve t v db) ≡ db)
      ⊎ ((m : ℕ) × (a : Average) × (get_average_difficulty t db ≡ some a)
          × (state_of (approve t v db) ≡ approve_playtest m t (rounded a) db))
unfolding approve
approve_tables t v db = elim (Option-cases (get_map_id_from_thread t db)) [
  | inl e ↦ inl (ground arith)
  | inr (m, e) ↦ elim (Option-cases (get_average_difficulty t db)) [
    | inl none_yet ↦ inl (ground arith)
    | inr (a, found) ↦ inr (m, a, found, ground arith)
  ]
]

force_accept_tables :
    (t v : ℕ) (name : Text) (db : Playtests)
    → (state_of (force_accept t name v db) ≡ db)
      ⊎ ((m : ℕ) × (raw : ℕ) × (midpoint_of name midpoints ≡ some raw)
          × (state_of (force_accept t name v db) ≡ approve_playtest m t raw db))
unfolding force_accept
force_accept_tables t v name db = elim (Option-cases (get_map_id_from_thread t db)) [
  | inl e ↦ inl (ground arith)
  | inr (m, e) ↦ elim (Option-cases (midpoint_of name midpoints)) [
    | inl unknown ↦ inl (ground arith)
    | inr (raw, found) ↦ inr (m, raw, found, ground arith)
  ]
]

midpoint_bound :
    (name : Text) (raw : ℕ) (l : List (Text × ℕ))
    → All (λ (e : Text × ℕ). e.1 ≤ 1000) l
    → midpoint_of name l ≡ some raw
    → raw ≤ 1000
unfolding midpoint_of
midpoint_bound name raw [] h found = absurd (ground arith)
midpoint_bound name raw ((n, r) ∷ l) h found = ground (arith, h.0, midpoint_bound name raw l h.1)

midpoints_bound : All (λ (e : Text × ℕ). e.1 ≤ 1000) midpoints
midpoints_bound = ground arith

approved-PlaytestWf :
    (m t raw : ℕ) (db : Playtests)
    → raw ≤ 1000
    → PlaytestWf db
    → PlaytestWf (approve_playtest m t raw db)
unfolding approve_playtest
approved-PlaytestWf m t raw db bound wf =
    (wf.0, maps_kept m (accept raw) db.maps (λ e h. accept-Labelled raw e bound) wf.1)

same-PlaytestWf : (db db' : Playtests) → db' ≡ db → PlaytestWf db → PlaytestWf db'
same-PlaytestWf db db' e wf = rw e wf

delete_vote_tables :
    (t u : ℕ) (db : Playtests)
    → (state_of (delete_vote t u db) ≡ db) ⊎ (state_of (delete_vote t u db) ≡ remove_vote t u db)
unfolding delete_vote
delete_vote_tables t u db = ground arith

force_deny_tables :
    (t v : ℕ) (db : Playtests)
    → (state_of (force_deny t v db) ≡ db)
      ⊎ ((m : ℕ) × (state_of (force_deny t v db) ≡ force_deny_playtest m t db))
unfolding force_deny
force_deny_tables t v db = elim (Option-cases (get_map_id_from_thread t db)) [
  | inl e ↦ inl (ground arith)
  | inr (m, e) ↦ inr (m, ground arith)
]

removed-PlaytestWf : (t u : ℕ) (db : Playtests) → PlaytestWf db → PlaytestWf (remove_vote t u db)
unfolding remove_vote
removed-PlaytestWf t u db wf = (All-delete_where InScale (is_users_vote t u) db.votes wf.0, wf.1)

cleared-PlaytestWf : (t : ℕ) (db : Playtests) → PlaytestWf db → PlaytestWf (remove_all_votes t db)
unfolding remove_all_votes
cleared-PlaytestWf t db wf = (All-delete_where InScale (is_on_thread t) db.votes wf.0, wf.1)

denied-PlaytestWf :
    (m t : ℕ) (db : Playtests) → PlaytestWf db → PlaytestWf (force_deny_playtest m t db)
unfolding force_deny_playtest
denied-PlaytestWf m t db wf = (wf.0, maps_kept m deny db.maps (λ e h. h) wf.1)

reset-PlaytestWf :
    (t : ℕ) (votes completions : Bool) (db : Playtests)
    → PlaytestWf db
    → PlaytestWf (reset_playtest t votes completions db)
unfolding delete_completions_for_playtest
reset-PlaytestWf t true true db wf = cleared-PlaytestWf t db wf
reset-PlaytestWf t true false db wf = cleared-PlaytestWf t db wf
reset-PlaytestWf t false true db wf = wf
reset-PlaytestWf t false false db wf = wf

handle-PlaytestWf : (c : Call) (db : Playtests) → PlaytestWf db → PlaytestWf (handle c db)
unfolding delete_all_votes reset
handle-PlaytestWf (casts t u d) db wf = elim (cast_vote-cases t u d db) [
  | inl same ↦ same-PlaytestWf db (state_of (cast_vote t u d db)) same wf
  | inr (m, bound, tables) ↦
      let new : Vote = record {
        user_id = u;
        map_id = m;
        playtest_thread_id = t;
        difficulty = pos_part d;
      } in
      same-PlaytestWf (record db { votes = upsert_vote new db.votes })
        (state_of (cast_vote t u d db)) tables (upsert_kept new db.votes bound wf.0, wf.1)
]
handle-PlaytestWf (removes t u) db wf = elim (delete_vote_tables t u db) [
  | inl same ↦ same-PlaytestWf db (state_of (delete_vote t u db)) same wf
  | inr gone ↦
      same-PlaytestWf (remove_vote t u db) (state_of (delete_vote t u db)) gone
        (removed-PlaytestWf t u db wf)
]
handle-PlaytestWf (clears t) db wf = cleared-PlaytestWf t db wf
handle-PlaytestWf (approves t v) db wf = elim (approve_tables t v db) [
  | inl same ↦ same-PlaytestWf db (state_of (approve t v db)) same wf
  | inr (m, a, found, tables) ↦
      let (bound, some_votes) = average_bound t db a wf.0 found in
      same-PlaytestWf (approve_playtest m t (rounded a) db) (state_of (approve t v db)) tables
        (approved-PlaytestWf m t (rounded a) db (rounded_bound a.sum a.terms bound some_votes) wf)
]
handle-PlaytestWf (accepts t name v) db wf = elim (force_accept_tables t v name db) [
  | inl same ↦ same-PlaytestWf db (state_of (force_accept t name v db)) same wf
  | inr (m, raw, found, tables) ↦
      same-PlaytestWf (approve_playtest m t raw db) (state_of (force_accept t name v db)) tables (
        approved-PlaytestWf m t raw db (midpoint_bound name raw midpoints midpoints_bound found) wf)
]
handle-PlaytestWf (denies t v) db wf = elim (force_deny_tables t v db) [
  | inl same ↦ same-PlaytestWf db (state_of (force_deny t v db)) same wf
  | inr (m, tables) ↦
      same-PlaytestWf (force_deny_playtest m t db) (state_of (force_deny t v db)) tables
        (denied-PlaytestWf m t db wf)
]
handle-PlaytestWf (resets t v votes completions) db wf = reset-PlaytestWf t votes completions db wf

-- Every sequence of calls keeps the scale: votes and difficulties of maps stay within 0 and 10, and
-- the name of a map's difficulty stays that of its number, whatever the calls and in any order.
pub handle_all-PlaytestWf :
    (calls : List Call) (db : Playtests) → PlaytestWf db → PlaytestWf (handle_all calls db)
handle_all-PlaytestWf [] db wf = wf
handle_all-PlaytestWf (c ∷ calls) db wf =
    handle_all-PlaytestWf calls (handle c db) (handle-PlaytestWf c db wf)
