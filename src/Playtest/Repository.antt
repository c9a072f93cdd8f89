-- ===== src/Playtest/Repository.antt =====
-- The statements of apps/api/repository/playtest_repository.py.
use genjishimada.Base.{
  ℕ, ◌+◌, ◌*◌, ◌/◌, Bool, true, false, not, ◌&&◌, ◌||◌, Option, none, some, List, [], ◌∷◌, ◌==◌,
  leb, opt_eq, if◌then◌else◌,
}
use genjishimada.Base.Dict.{Dict, lookup}
use genjishimada.Base.Int.{ℤ, pos, negsuc, pos_part, leb_ℤ, ltb_ℤ}
use genjishimada.Base.Lists.{any, find?}
use genjishimada.Base.Rows.{update_where, delete_where, count_where}
use genjishimada.Base.Outcome.{Outcome, pure, raise}
use genjishimada.Base.Text.{Text}
use genjishimada.Difficulty.{convert_raw_all}
use genjishimada.Playtest.Tables.{
  approved, rejected, Map, Meta, Vote, Completion, Playtests, PlaytestError, vote_constraint,
  numeric_out_of_range,
}

abbrev pub Action : Type 0 → Type 0
Action A = Playtests → Outcome Playtests PlaytestError A

abbrev pub on_thread : ℕ → Meta → Bool
on_thread t m = opt_eq m.thread_id (some t)

-- `fetch_playtest`
abbrev pub fetch_playtest : ℕ → Playtests → Option Meta
fetch_playtest t db = find? (on_thread t) db.meta

-- `get_map_id_from_thread`
unfoldable pub get_map_id_from_thread : ℕ → Playtests → Option ℕ
get_map_id_from_thread t db = elim (find? (on_thread t) db.meta) [
  | none ↦ none
  | some m ↦ some m.map_id
]

-- The condition of `playtests.enforce_verified_completion_immediate`.
abbrev pub is_verified_completion : ℕ → ℕ → Completion → Bool
is_verified_completion u map_id c =
    (c.user_id == u) && (c.map_id == map_id) && c.verified && not c.legacy

abbrev pub may_vote : ℕ → ℕ → Playtests → Bool
may_vote u map_id db = any (is_verified_completion u map_id) db.completions

-- The check `difficulty_range`, of a number that its column can hold.
abbrev pub fits_column : ℤ → Bool
fits_column d = ltb_ℤ (negsuc 9999) d && ltb_ℤ d (pos 10000)

abbrev pub in_difficulty_range : ℤ → Bool
in_difficulty_range d = leb_ℤ (pos 0) d && leb_ℤ d (pos 1000)

abbrev pub is_vote : ℕ → ℕ → ℕ → Vote → Bool
is_vote u map_id t v = (v.user_id == u) && (v.map_id == map_id) && (v.playtest_thread_id == t)

abbrev pub set_vote : ℕ → Vote → Vote
set_vote d v = record v { difficulty = d }

abbrev pub upsert_vote : Vote → List Vote → List Vote
upsert_vote new votes =
    if any (is_vote new.user_id new.map_id new.playtest_thread_id) votes
    then update_where (is_vote new.user_id new.map_id new.playtest_thread_id)
        (set_vote new.difficulty) votes
    else new ∷ votes

-- `cast_vote`, with the trigger and the check of its table; without a playtest on the thread there
-- is no row to insert.
unfoldable pub insert_vote : ℕ → ℕ → ℤ → Action (Unit {0})
unfolding get_map_id_from_thread
insert_vote t u d db = elim (get_map_id_from_thread t db) [
  | none ↦ pure tt db
  | some map_id ↦
      if not (fits_column d)
      then raise numeric_out_of_range db
      else if not (may_vote u map_id db) || not (in_difficulty_range d)
      then raise vote_constraint db
      else pure tt (record db {
        votes =
            upsert_vote
              (record {
                user_id = u;
                map_id = map_id;
                playtest_thread_id = t;
                difficulty = pos_part d;
              })
              db.votes;
      })
]

abbrev pub is_users_vote : ℕ → ℕ → Vote → Bool
is_users_vote t u v = (v.playtest_thread_id == t) && (v.user_id == u)

abbrev pub is_on_thread : ℕ → Vote → Bool
is_on_thread t v = v.playtest_thread_id == t

-- `check_vote_exists`
unfoldable pub check_vote_exists : ℕ → ℕ → Playtests → Bool
check_vote_exists t u db = any (is_users_vote t u) db.votes

-- `delete_vote`
unfoldable pub remove_vote : ℕ → ℕ → Playtests → Playtests
remove_vote t u db = record db { votes = delete_where (is_users_vote t u) db.votes }

-- `delete_all_votes`
unfoldable pub remove_all_votes : ℕ → Playtests → Playtests
remove_all_votes t db = record db { votes = delete_where (is_on_thread t) db.votes }

abbrev pub total : ℕ → List Vote → ℕ
total t [] = 0
total t (v ∷ votes) = if is_on_thread t v then v.difficulty + total t votes else total t votes

-- An average as its sum and the number of its terms.
pub record Average : Type 0 where
  pub sum : ℕ
  pub terms : ℕ

-- `get_average_difficulty`: no average of no votes.
unfoldable pub get_average_difficulty : ℕ → Playtests → Option Average
get_average_difficulty t db =
    let terms = count_where (is_on_thread t) db.votes in
    if terms == 0 then none else some (record { sum = total t db.votes; terms = terms })

-- What numeric(4, 2) keeps of an average: halves are rounded up.
abbrev pub rounded : Average → ℕ
rounded a = (2 * a.sum + a.terms) / (2 * a.terms)

abbrev pub text_or_empty : Option Text → Text
text_or_empty none = []
text_or_empty (some s) = s

-- `core.set_maps_difficulty_from_raw`, for a raw difficulty in its range.
abbrev pub with_raw_difficulty : ℕ → Map → Map
with_raw_difficulty raw m = record m {
  raw_difficulty = raw;
  difficulty = text_or_empty (convert_raw_all raw);
}

-- `UPDATE core.maps … WHERE id = $1`
abbrev pub update_map : ℕ → (Map → Map) → Dict Map → Dict Map
update_map k f [] = []
update_map k f (e ∷ d) = if k == e.0 then (e.0, f e.1) ∷ d else e ∷ update_map k f d

abbrev pub complete : Meta → Meta
complete m = record m { completed = true }

abbrev pub accept : ℕ → Map → Map
accept raw m = with_raw_difficulty raw (record m { playtesting = approved })

-- `approve_playtest` and `force_accept_playtest`
unfoldable pub approve_playtest : ℕ → ℕ → ℕ → Playtests → Playtests
approve_playtest map_id t raw db = record db {
  maps = update_map map_id (accept raw) db.maps;
  meta = update_where (on_thread t) complete db.meta;
}

abbrev pub deny : Map → Map
deny m = record m { playtesting = rejected; hidden = true }

-- `force_deny_playtest`
unfoldable pub force_deny_playtest : ℕ → ℕ → Playtests → Playtests
force_deny_playtest map_id t db = record db {
  maps = update_map map_id deny db.maps;
  meta = update_where (on_thread t) complete db.meta;
}

-- `get_primary_creator`
unfoldable pub get_primary_creator : ℕ → Playtests → Option ℕ
get_primary_creator map_id db =
    elim (find? (λ c. (c.map_id == map_id) && c.is_primary) db.creators) [
      | none ↦ none
      | some c ↦ some c.user_id
    ]

-- `get_map_code`
unfoldable pub get_map_code : ℕ → Playtests → Option Text
get_map_code map_id db = elim (lookup map_id db.maps) [ none ↦ none | some m ↦ some m.code ]

abbrev pub since_playtest : Option Meta → Completion → Bool
since_playtest none c = false
since_playtest (some m) c = (c.map_id == m.map_id) && leb m.created_at c.inserted_at

-- `delete_completions_for_playtest`
unfoldable pub delete_completions_for_playtest : ℕ → Playtests → Playtests
delete_completions_for_playtest t db = record db {
  completions = delete_where (since_playtest (find? (on_thread t) db.meta)) db.completions;
}
