-- ===== src/Auth/RateBounds.antt =====
-- The limits on attempts: how many rows of attempts any sequence of requests can leave within a window.
use genjishimada.Base.{
  ℕ, ◌≡◌, refl, ◌≤◌, ◌<◌, Bool, true, false, Option, none, some, List, [], ◌∷◌, arith, inl, inr,
}
use genjishimada.Base.Rows.{count_where}
use genjishimada.Base.Text.{Text, lower, text_eq, text_eq_iff}
use genjishimada.Auth.Tables.{AuthDb, Attempt}
use genjishimada.Auth.Action.{returned}
use genjishimada.Auth.Limits.{check_rate_limit, rate_limits_for}
use genjishimada.Auth.Repository.{
  attempt, in_window, fetch_rate_limit_count, revoke_remember_tokens,
}
use genjishimada.Auth.SessionRepository
use genjishimada.Auth.SessionRepository.{
  read_session, write_session, delete_session, delete_expired_sessions, delete_user_sessions,
}
use genjishimada.Auth.SessionService.{session_read, create_remember_token, validate_remember_token}
use genjishimada.Auth.Service.{Crypto}
use genjishimada.Auth.Attempts.{
  Attempts, login-Attempts, register-Attempts, resend_verification-Attempts,
  request_password_reset-Attempts, verify_email-attempts, confirm_password_reset-attempts,
}
use genjishimada.Auth.Runs.{
  Request, registers, logs_in, verifies, resends, requests_reset, confirms_reset, reads_session,
  writes_session, destroys_session, collects_sessions, logs_out, remembers, recalls, forgets, serve,
  run, InOrder, last_moment, limited_as,
}

-- What a request records, by the email and the action that it is limited as.
abbrev pub Recorded : Option (Text × Text) → ℕ → AuthDb → AuthDb → Type 0
Recorded none t db db' = db'.rate_limits ≡ db.rate_limits
Recorded (some (identifier, action)) t db db' = Attempts t t identifier action db db'

pub serve-Recorded :
    (c : Crypto) (t : ℕ) (r : Request) (db : AuthDb) → Recorded (limited_as r) t db (serve c t r db)
unfolding session_read read_session write_session delete_session delete_expired_sessions
    delete_user_sessions create_remember_token validate_remember_token
    SessionRepository.create_remember_token SessionRepository.validate_remember_token
    revoke_remember_tokens
serve-Recorded c t (registers salt token r ip) db = register-Attempts c t t salt token r ip db
serve-Recorded c t (logs_in r ip) db = login-Attempts c t t r ip db
serve-Recorded c t (verifies token) db = verify_email-attempts c t t token db
serve-Recorded c t (resends token email ip) db =
    resend_verification-Attempts c t t token email ip db
serve-Recorded c t (requests_reset token email ip) db =
    request_password_reset-Attempts c t t token email ip db
serve-Recorded c t (confirms_reset salt token password) db =
    confirm_password_reset-attempts c t t salt token password db
serve-Recorded c t (reads_session id) db = ground arith
serve-Recorded c t (writes_session id payload u ip agent) db = ground arith
serve-Recorded c t (destroys_session id) db = refl
serve-Recorded c t collects_sessions db = refl
serve-Recorded c t (logs_out u kept) db = refl
serve-Recorded c t (remembers token u ip agent) db = ground arith
serve-Recorded c t (recalls token) db = ground arith
serve-Recorded c t (forgets u) db = refl

-- An attempt leaves a window as time passes, and never enters it again.
count_later :
    (identifier action : Text) (t t' window : ℕ) (rows : List Attempt)
    → t ≤ t'
    → count_where (in_window identifier action t' window) rows
      ≤ count_where (in_window identifier action t window) rows
count_later identifier action t t' window [] later = omega arith
count_later identifier action t t' window (a ∷ rows) later =
    ground (arith, count_later identifier action t t' window rows later)

check_rate_limit_passed :
    (wall : ℕ) (identifier action : Text) (db : AuthDb) (max_attempts window : ℕ)
    → check_rate_limit wall identifier action db ≡ returned tt db
    → rate_limits_for action ≡ some (max_attempts, window)
    → fetch_rate_limit_count identifier action wall window db < max_attempts
unfolding check_rate_limit
check_rate_limit_passed wall identifier action db max_attempts window passed limit = ground arith

-- Every identifier has made at most the attempts allowed within a window, now and from now on.
abbrev pub Below : ℕ → AuthDb → Type 0
Below t db =
    (identifier action : Text) (max_attempts window t' : ℕ)
    → rate_limits_for action ≡ some (max_attempts, window)
    → t ≤ t'
    → fetch_rate_limit_count identifier action t' window db ≤ max_attempts

count_same :
    (identifier j action : Text) (t window : ℕ) (rows : List Attempt)
    → lower identifier ≡ lower j
    → count_where (in_window identifier action t window) rows
      ≡ count_where (in_window j action t window) rows
count_same identifier j action t window [] same = refl
count_same identifier j action t window (a ∷ rows) same =
    ground (arith, count_same identifier j action t window rows same)

-- An identifier that has passed its limit has room for one attempt more, then and later.
room_left :
    (t t' max_attempts window : ℕ) (identifier j action action' : Text) (db : AuthDb)
    → check_rate_limit t identifier action' db ≡ returned tt db
    → rate_limits_for action ≡ some (max_attempts, window)
    → t ≤ t'
    → text_eq (lower identifier) (lower j) ≡ true
    → text_eq action' action ≡ true
    → count_where (in_window j action t' window) db.rate_limits < max_attempts
unfolding fetch_rate_limit_count
room_left t t' max_attempts window identifier j action action' db passed limit later same_id
      same_action =
    let same = (text_eq_iff action' action).0 same_action in
    let room =
      check_rate_limit_passed t identifier action' db max_attempts window passed (rw same limit) in
    let room' = rw same at room in
    ground (
      arith,
      count_same identifier j action t window db.rate_limits
          ((text_eq_iff (lower identifier) (lower j)).0 same_id),
      count_later j action t t' window db.rate_limits later,
    )

count_cons :
    (t t' max_attempts window : ℕ) (identifier j action action' : Text) (s : Bool) (db : AuthDb)
    → check_rate_limit t identifier action' db ≡ returned tt db
    → rate_limits_for action ≡ some (max_attempts, window)
    → t ≤ t'
    → count_where (in_window j action t' window) db.rate_limits ≤ max_attempts
    → count_where (in_window j action t' window) (attempt t identifier action' s ∷ db.rate_limits)
      ≤ max_attempts
count_cons t t' max_attempts window identifier j action action' s db passed limit later below =
    ground
      (arith, room_left t t' max_attempts window identifier j action action' db passed limit later)

Attempts-Below :
    (t : ℕ) (identifier action : Text) (db db' : AuthDb)
    → Attempts t t identifier action db db'
    → Below t db
    → Below t db'
unfolding fetch_rate_limit_count
Attempts-Below t identifier action db db' (inl same) below j action' max_attempts window t' limit
      later =
    rw same (below j action' max_attempts window t' limit later)
Attempts-Below t identifier action db db' (inr (passed, inl e)) below j action' max_attempts window
      t' limit later =
    rw e (
      count_cons t t' max_attempts window identifier j action' action true db passed limit later
        (below j action' max_attempts window t' limit later))
Attempts-Below t identifier action db db' (inr (passed, inr e)) below j action' max_attempts window
      t' limit later =
    rw e (
      count_cons t t' max_attempts window identifier j action' action false db passed limit later
        (below j action' max_attempts window t' limit later))

Recorded-Below :
    (o : Option (Text × Text)) (t : ℕ) (db db' : AuthDb)
    → Recorded o t db db'
    → Below t db
    → Below t db'
Recorded-Below none t db db' same below = Attempts-Below t [] [] db db' (inl same) below
Recorded-Below (some (identifier, action)) t db db' h below =
    Attempts-Below t identifier action db db' h below

Below-later : (t t' : ℕ) (db : AuthDb) → t ≤ t' → Below t db → Below t' db
Below-later t t' db later below j action max_attempts window t'' limit later' =
    below j action max_attempts window t'' limit (omega arith)

run-Below :
    (c : Crypto) (from : ℕ) (events : List (ℕ × Request)) (db : AuthDb)
    → InOrder from events
    → Below from db
    → Below (last_moment from events) (run c events db)
run-Below c from [] db ordered below = below
run-Below c from ((t, r) ∷ events) db ordered below =
    run-Below c t events (serve c t r db) ordered.1 (
      Recorded-Below (limited_as r) t db (serve c t r db) (serve-Recorded c t r db)
        (Below-later from t db ordered.0 below))

empty-Below : (t : ℕ) (db : AuthDb) → db.rate_limits ≡ [] → Below t db
unfolding fetch_rate_limit_count
empty-Below t db empty identifier action max_attempts window t' limit later = rw empty (omega arith)

-- From tables without attempts, any sequence of requests in the order of time leaves at most as many
-- rows of attempts within a window as the limit allows, for every identifier and action.
pub count_bounded :
    (c : Crypto) (from : ℕ) (events : List (ℕ × Request)) (db : AuthDb) (identifier action : Text)
    (max_attempts window t : ℕ)
    → db.rate_limits ≡ []
    → InOrder from events
    → rate_limits_for action ≡ some (max_attempts, window)
    → last_moment from events ≤ t
    → fetch_rate_limit_count identifier action t window (run c events db) ≤ max_attempts
count_bounded c from events db identifier action max_attempts window t empty ordered limit later =
    run-Below c from events db ordered (empty-Below from db empty) identifier action max_attempts
      window t limit later
