-- ===== src/Playtest/Votes.antt =====
-- Votes on a playtest: voting again, and removing a vote.
use genjishimada.Base.{
  ℕ, ◌≡◌, refl, false, none, some, List, [], ◌∷◌, arith, Option-cases, inl, inr, ◌∙◌,
}
use genjishimada.Base.Int.{ℤ, pos_part}
use genjishimada.Base.Lists.{any}
use genjishimada.Base.Rows.{update_where, delete_where}
use genjishimada.Base.Outcome.{returned, raised}
use genjishimada.Playtest.Tables.{Vote, Playtests, vote_not_found}
use genjishimada.Playtest.Repository.{
  is_vote, set_vote, upsert_vote, insert_vote, is_users_vote, get_map_id_from_thread, remove_vote,
  check_vote_exists,
}
use genjishimada.Playtest.Service.{PlaytestEvent, cast_vote, delete_vote}

update_twice :
    (u m t d e : ℕ) (votes : List Vote)
    → update_where (is_vote u m t) (set_vote e) (update_where (is_vote u m t) (set_vote d) votes)
      ≡ update_where (is_vote u m t) (set_vote e) votes
update_twice u m t d e [] = refl
update_twice u m t d e (v ∷ votes) = ground (arith, update_twice u m t d e votes)

update_none :
    (u m t e : ℕ) (votes : List Vote)
    → any (is_vote u m t) votes ≡ false
    → update_where (is_vote u m t) (set_vote e) votes ≡ votes
update_none u m t e [] missing = refl
update_none u m t e (v ∷ votes) missing = ground (arith, update_none u m t e votes)

any_updated :
    (u m t d : ℕ) (votes : List Vote)
    → any (is_vote u m t) (update_where (is_vote u m t) (set_vote d) votes)
      ≡ any (is_vote u m t) votes
any_updated u m t d [] = refl
any_updated u m t d (v ∷ votes) = ground (arith, any_updated u m t d votes)

upsert_twice :
    (v w : Vote) (votes : List Vote)
    → w.user_id ≡ v.user_id
    → w.map_id ≡ v.map_id
    → w.playtest_thread_id ≡ v.playtest_thread_id
    → upsert_vote w (upsert_vote v votes) ≡ upsert_vote w votes
upsert_twice v w votes e1 e2 e3 = ground (
  arith,
  update_twice v.user_id v.map_id v.playtest_thread_id v.difficulty w.difficulty votes,
  update_none v.user_id v.map_id v.playtest_thread_id w.difficulty votes,
  any_updated v.user_id v.map_id v.playtest_thread_id v.difficulty votes,
)

cast_tables :
    (t u : ℕ) (d : ℤ) (db db' : Playtests) (e : PlaytestEvent) (m : ℕ)
    → get_map_id_from_thread t db ≡ some m
    → cast_vote t u d db ≡ returned e db'
    → db' ≡ record db {
      votes =
          upsert_vote
            (record { user_id = u; map_id = m; playtest_thread_id = t; difficulty = pos_part d })
            db.votes;
    }
unfolding cast_vote insert_vote
cast_tables t u d db db' e m found done = ground arith

cast_nowhere :
    (t u : ℕ) (d : ℤ) (db db' : Playtests) (e : PlaytestEvent)
    → get_map_id_from_thread t db ≡ none
    → cast_vote t u d db ≡ returned e db'
    → db' ≡ db
unfolding cast_vote insert_vote
cast_nowhere t u d db db' e missing done = ground arith

same_thread :
    (t : ℕ) (db : Playtests) (votes : List Vote)
    → get_map_id_from_thread t (record db { votes = votes }) ≡ get_map_id_from_thread t db
unfolding get_map_id_from_thread
same_thread t db votes = refl

-- The last vote of a voter counts: where a first vote and then a second one are accepted, the
-- tables are as after the second one alone.
pub cast_vote_last :
    (t u : ℕ) (d d' : ℤ) (db db1 db2 db' : Playtests) (e e' e'' : PlaytestEvent)
    → cast_vote t u d db ≡ returned e db1
    → cast_vote t u d' db1 ≡ returned e' db2
    → cast_vote t u d' db ≡ returned e'' db'
    → db2 ≡ db'
cast_vote_last t u d d' db db1 db2 db' e e' e'' first second alone =
    elim (Option-cases (get_map_id_from_thread t db)) [
      | inl missing ↦
          let same = cast_nowhere t u d db db1 e missing first in
          let none1 : get_map_id_from_thread t db1 ≡ none = rw same missing in
          ground (
            arith,
            same,
            cast_nowhere t u d' db1 db2 e' none1 second,
            cast_nowhere t u d' db db' e'' missing alone,
          )
      | inr (m, found) ↦
          let v : Vote = record {
            user_id = u;
            map_id = m;
            playtest_thread_id = t;
            difficulty = pos_part d;
          } in
          let w : Vote = record v { difficulty = pos_part d' } in
          let one = cast_tables t u d db db1 e m found first in
          let found1 : get_map_id_from_thread t db1 ≡ some m =
            rw one (same_thread t db (upsert_vote v db.votes) ∙ found) in
          ground (
            arith,
            one,
            cast_tables t u d' db1 db2 e' m found1 second,
            cast_tables t u d' db db' e'' m found alone,
            upsert_twice v w db.votes refl refl refl,
          )
    ]

none_left :
    (t u : ℕ) (votes : List Vote)
    → any (is_users_vote t u) (delete_where (is_users_vote t u) votes) ≡ false
none_left t u [] = refl
none_left t u (v ∷ votes) = ground (arith, none_left t u votes)

-- A vote can be removed once: after it has been removed the next removal, of the same voter on the
-- same thread, raises VoteNotFoundError and changes nothing.
pub delete_vote_once :
    (t u : ℕ) (db db' : Playtests) (e : PlaytestEvent)
    → delete_vote t u db ≡ returned e db'
    → delete_vote t u db' ≡ raised (vote_not_found t u) db'
unfolding delete_vote remove_vote check_vote_exists
delete_vote_once t u db db' e done = ground (arith, none_left t u db.votes)
