-- ===== src/Playtest/Service.antt =====
-- `PlaytestService` of apps/api/services/playtest_service.py, up to the message that each call
-- publishes at its end.
use genjishimada.Base.{
  ℕ, ◌*◌, Bool, not, ◌&&◌, Option, none, some, List, [], ◌∷◌, ◌==◌, ltb, leb, if◌then◌else◌,
}
use genjishimada.Base.Int.{ℤ}
use genjishimada.Base.Outcome.{pure, gets, modify, or_raise, raise_if, transaction, ◌>>=◌, ◌>>◌}
use genjishimada.Base.Text.{Text, codes, text_eq}
use genjishimada.Difficulty.{Range, ranges_all, midpoints}
use genjishimada.Playtest.Tables.{
  Playtests, playtest_not_found, vote_not_found, no_votes, code_not_found, creator_not_found,
  value_error, key_error,
}
use genjishimada.Playtest.Repository.{
  Action, Average, rounded, get_map_id_from_thread, insert_vote, check_vote_exists, remove_vote,
  remove_all_votes, get_average_difficulty, approve_playtest, force_deny_playtest,
  get_primary_creator, get_map_code, delete_completions_for_playtest,
}

-- The events of libs/sdk/src/genjishimada_sdk/maps.py, without the reason of a moderator.
pub data PlaytestEvent : Type 0 where
  vote_cast : ℕ → ℕ → ℤ → PlaytestEvent
  vote_removed : ℕ → ℕ → PlaytestEvent
  playtest_approved : Text → ℕ → Text → ℕ → ℕ → PlaytestEvent
  force_accepted : ℕ → Text → ℕ → PlaytestEvent
  force_denied : ℕ → ℕ → PlaytestEvent
  playtest_reset : ℕ → ℕ → Bool → Bool → PlaytestEvent

-- `cast_vote`
unfoldable pub cast_vote : ℕ → ℕ → ℤ → Action PlaytestEvent
cast_vote t u d = do insert_vote t u d; pure (vote_cast t u d)

-- `delete_vote`
unfoldable pub delete_vote : ℕ → ℕ → Action PlaytestEvent
delete_vote t u = do
  exists ← gets (check_vote_exists t u)
  raise_if (not exists) (vote_not_found t u)
  modify (remove_vote t u)
  pure (vote_removed t u)

-- `delete_all_votes`
unfoldable pub delete_all_votes : ℕ → Action (Unit {0})
delete_all_votes t = modify (remove_all_votes t)

-- `_convert_raw_difficulty` on an average that is not rounded: the first range with
-- low <= sum / terms < high, and Hell for 10.
unfoldable pub convert_average : List Range → Average → Option Text
convert_average [] a = if a.sum == 1000 * a.terms then some (codes "Hell") else none
convert_average (r ∷ rs) a =
    if leb (r.low * a.terms) a.sum && ltb a.sum (r.high * a.terms)
    then some r.name
    else convert_average rs a

-- What the transaction of `approve` gives.
pub record Approval : Type 0 where
  pub average : Average
  pub creator : Option ℕ
  pub code : Option Text

abbrev pub approve_map : ℕ → Action Approval
approve_map t = do
  map_id ← (gets (get_map_id_from_thread t) >>= λ o. or_raise o (playtest_not_found t))
  average ← (gets (get_average_difficulty t) >>= λ o. or_raise o no_votes)
  modify (approve_playtest map_id t (rounded average))
  creator ← gets (get_primary_creator map_id)
  code ← gets (get_map_code map_id)
  pure (record { average = average; creator = creator; code = code })

-- `approve`: what is missing for the event is found missing after the transaction.
unfoldable pub approve : ℕ → ℕ → Action PlaytestEvent
approve t verifier = do
  a ← transaction (approve_map t)
  code ← or_raise a.code code_not_found
  creator ← or_raise a.creator creator_not_found
  difficulty ← or_raise (convert_average ranges_all a.average) value_error
  pure (playtest_approved code t difficulty verifier creator)

-- `DIFFICULTY_MIDPOINTS[difficulty]`
unfoldable pub midpoint_of : Text → List (Text × ℕ) → Option ℕ
midpoint_of name [] = none
midpoint_of name ((n, raw) ∷ rest) = if text_eq n name then some raw else midpoint_of name rest

abbrev pub force_accept_map : ℕ → Text → Action (Unit {0})
force_accept_map t difficulty = do
  map_id ← (gets (get_map_id_from_thread t) >>= λ o. or_raise o (playtest_not_found t))
  raw ← or_raise (midpoint_of difficulty midpoints) key_error
  modify (approve_playtest map_id t raw)

-- `force_accept`
unfoldable pub force_accept : ℕ → Text → ℕ → Action PlaytestEvent
force_accept t difficulty verifier = do
  transaction (force_accept_map t difficulty)
  pure (force_accepted t difficulty verifier)

abbrev pub force_deny_map : ℕ → Action (Unit {0})
force_deny_map t = do
  map_id ← (gets (get_map_id_from_thread t) >>= λ o. or_raise o (playtest_not_found t))
  modify (force_deny_playtest map_id t)

-- `force_deny`
unfoldable pub force_deny : ℕ → ℕ → Action PlaytestEvent
force_deny t verifier = do transaction (force_deny_map t); pure (force_denied t verifier)

-- The transaction of `reset`.
abbrev pub reset_playtest : ℕ → Bool → Bool → Playtests → Playtests
reset_playtest t remove_votes remove_completions db =
    let db' = if remove_votes then remove_all_votes t db else db in
    if remove_completions then delete_completions_for_playtest t db' else db'

-- `reset`
unfoldable pub reset : ℕ → ℕ → Bool → Bool → Action PlaytestEvent
reset t verifier remove_votes remove_completions = do
  modify (reset_playtest t remove_votes remove_completions)
  pure (playtest_reset t verifier remove_votes remove_completions)
