-- ===== src/Playtest/Threads.antt =====
-- The Discord threads of playtests: `edit_playtest_meta` and `associate_playtest_meta` of
-- apps/api/services/playtest_service.py, with the statements that they run.
use genjishimada.Base.{
  ℕ, Bool, true, false, not, ◌&&◌, ◌||◌, Option, none, some, List, ◌∷◌, ◌==◌, is_some, get_or,
  if◌then◌else◌, ◌≡◌, arith, opt_eq_iff, [],
}
use genjishimada.Base.Lists.{any, find?}
use genjishimada.Base.Outcome.{pure, raise, gets, or_raise, raise_if, ◌>>=◌, ◌>>◌, returned}
use genjishimada.Base.Rows.{update_where}
use genjishimada.Base.Text.{Text}
use genjishimada.Playtest.Tables.{
  Meta, Vote, Playtests, playtest_not_found, unique_violation, foreign_key_violation,
  undefined_column, invalid_patch,
}
use genjishimada.Playtest.Repository.{Action, on_thread, fetch_playtest}

-- The fields of `PlaytestPatchRequest`: `none` is UNSET.
pub record PlaytestPatch : Type 0 where
  pub thread_id : Option ℕ
  pub verification_id : Option ℕ
  pub completed : Option Bool
  pub thread_creation_status : Option Text
  pub thread_creation_failure_reason : Option (Option Text)
  pub thread_creation_last_attempt_at : Option ℕ

-- The fields without a column in playtests.meta.
abbrev pub sets_creation : PlaytestPatch → Bool
sets_creation p =
    is_some p.thread_creation_status
    || is_some p.thread_creation_failure_reason
    || is_some p.thread_creation_last_attempt_at

abbrev pub is_unset : PlaytestPatch → Bool
is_unset p =
    not (is_some p.thread_id || is_some p.verification_id || is_some p.completed || sets_creation p)

abbrev pub or_old : Option ℕ → Option ℕ → Option ℕ
or_old none old = old
or_old (some new) old = some new

abbrev pub patched : PlaytestPatch → Meta → Meta
patched p m = record m {
  thread_id = or_old p.thread_id m.thread_id;
  verification_id = or_old p.verification_id m.verification_id;
  completed = get_or p.completed m.completed;
}

-- Another playtest has the thread.
abbrev pub is_taken : (Meta → Bool) → ℕ → Playtests → Bool
is_taken p t db = any p db.meta && any (λ m. not (p m) && on_thread t m) db.meta

-- A vote refers to a thread that the rows would lose.
abbrev pub loses_votes : (Meta → Bool) → ℕ → Playtests → Bool
loses_votes p t db =
    any
      (λ (v : Vote).
        any (λ m. p m && on_thread v.playtest_thread_id m) db.meta
        && not (v.playtest_thread_id == t))
      db.votes

-- `UPDATE playtests.meta SET … WHERE p`, with the unique threads and the votes that refer to them
abbrev pub update_meta : (Meta → Bool) → Option ℕ → (Meta → Meta) → Action (Unit {0})
update_meta p none f db = pure tt (record db { meta = update_where p f db.meta })
update_meta p (some t) f db =
    if is_taken p t db
    then raise unique_violation db
    else if loses_votes p t db
    then raise foreign_key_violation db
    else pure tt (record db { meta = update_where p f db.meta })

-- `update_playtest_meta`
unfoldable pub update_playtest_meta : ℕ → PlaytestPatch → Action (Unit {0})
update_playtest_meta t p db =
    if sets_creation p
    then raise undefined_column db
    else update_meta (on_thread t) p.thread_id (patched p) db

-- `edit_playtest_meta`
unfoldable pub edit_playtest_meta : ℕ → PlaytestPatch → Action (Unit {0})
edit_playtest_meta t p = do raise_if (is_unset p) invalid_patch; update_playtest_meta t p

abbrev pub has_playtest_id : ℕ → Meta → Bool
has_playtest_id i m = m.id == i

abbrev pub set_thread : ℕ → Meta → Meta
set_thread t m = record m { thread_id = some t }

-- `associate_thread`
unfoldable pub associate_thread : ℕ → ℕ → Action (Unit {0})
associate_thread i t = update_meta (has_playtest_id i) (some t) (set_thread t)

-- `associate_playtest_meta`
unfoldable pub associate_playtest_meta : ℕ → ℕ → Action Meta
associate_playtest_meta i t = do
  associate_thread i t
  row ← gets (fetch_playtest t)
  or_raise row (playtest_not_found t)

updated_found :
    (i t : ℕ) (rows : List Meta) (m : Meta)
    → any (λ m. not (has_playtest_id i m) && on_thread t m) rows ≡ false
    → find? (on_thread t) (update_where (has_playtest_id i) (set_thread t) rows) ≡ some m
    → (m.id ≡ i) × (m.thread_id ≡ some t)
updated_found i t [] m free found = absurd (ground arith)
updated_found i t (x ∷ rows) m free found =
    ground (arith, opt_eq_iff x.thread_id (some t), updated_found i t rows m)

-- Associating a thread with a playtest that exists gives that playtest, with the thread.
pub associate_playtest_meta_sound :
    (i t : ℕ) (m : Meta) (db db' : Playtests)
    → any (has_playtest_id i) db.meta ≡ true
    → associate_playtest_meta i t db ≡ returned m db'
    → (m.id ≡ i) × (m.thread_id ≡ some t)
unfolding associate_playtest_meta associate_thread
associate_playtest_meta_sound i t m db db' known done =
    updated_found i t db.meta m (ground arith) (ground arith)
