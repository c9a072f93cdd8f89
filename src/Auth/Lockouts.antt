-- ===== src/Auth/Lockouts.antt =====
-- Whom the limits on attempts can lock out, and for how long.
use genjishimada.Base.{
  ℕ, ◌+◌, ◌≡◌, ◌≢◌, refl, ◌∙◌, ◌≤◌, Bool, true, false, Option, none, some, List, [], ◌∷◌, arith,
  inl, inr,
}
use genjishimada.Base.Lists.{All}
use genjishimada.Base.Rows.{count_where}
use genjishimada.Base.Text.{Text, lower, text_eq_iff}
use genjishimada.Auth.Tables.{AuthDb, Attempt}
use genjishimada.Auth.Action.{returned}
use genjishimada.Auth.Limits.{check_rate_limit, check_client_ip, rate_limits_for}
use genjishimada.Auth.Repository.{attempt, in_window, fetch_rate_limit_count}
use genjishimada.Auth.Service.{Crypto}
use genjishimada.Auth.Runs.{Request, serve, run, InOrder, last_moment, limited_as}
use genjishimada.Auth.RateBounds.{Recorded, serve-Recorded}

-- A request that records no attempt for an identifier.
abbrev pub Spares : Text → Option (Text × Text) → Type 0
Spares j none = Unit
Spares j (some (identifier, action)) = lower identifier ≢ lower j

attempt_apart :
    (t wall window : ℕ) (j action identifier action' : Text) (s : Bool) (rows : List Attempt)
    → lower identifier ≢ lower j
    → count_where (in_window j action wall window) (attempt t identifier action' s ∷ rows)
      ≡ count_where (in_window j action wall window) rows
attempt_apart t wall window j action identifier action' s rows apart =
    ground (arith, text_eq_iff (lower identifier) (lower j))

Recorded-count :
    (o : Option (Text × Text)) (t wall window : ℕ) (j action : Text) (db db' : AuthDb)
    → Recorded o t db db'
    → Spares j o
    → fetch_rate_limit_count j action wall window db'
      ≡ fetch_rate_limit_count j action wall window db
unfolding fetch_rate_limit_count
Recorded-count none t wall window j action db db' same spares = rw same refl
Recorded-count (some (i, a)) t wall window j action db db' (inl same) spares = rw same refl
Recorded-count (some (i, a)) t wall window j action db db' (inr (_, inl e)) spares =
    rw e (attempt_apart t wall window j action i a true db.rate_limits spares)
Recorded-count (some (i, a)) t wall window j action db db' (inr (_, inr e)) spares =
    rw e (attempt_apart t wall window j action i a false db.rate_limits spares)

-- Attempts count only for the email they were made with: a sequence of requests, none of which is
-- limited under an identifier, leaves the number of attempts of that identifier as it was, of
-- every action and in every window.
pub fetch_rate_limit_count_of_others :
    (c : Crypto) (events : List (ℕ × Request)) (db : AuthDb) (j action : Text) (wall window : ℕ)
    → All (λ (e : ℕ × Request). Spares j (limited_as e.1)) events
    → fetch_rate_limit_count j action wall window (run c events db)
      ≡ fetch_rate_limit_count j action wall window db
fetch_rate_limit_count_of_others c [] db j action wall window spares = refl
fetch_rate_limit_count_of_others c ((t, r) ∷ events) db j action wall window spares =
    fetch_rate_limit_count_of_others c events (serve c t r db) j action wall window spares.1
    ∙ Recorded-count (limited_as r) t wall window j action db (serve c t r db)
        (serve-Recorded c t r db) spares.0

unlimited :
    (wall : ℕ) (j action : Text) (db : AuthDb)
    → ((window : ℕ) → fetch_rate_limit_count j action wall window db ≡ 0)
    → check_rate_limit wall j action db ≡ returned tt db
unfolding check_rate_limit rate_limits_for
unlimited wall j action db zero = ground (arith, zero 3600, zero 900)

client_ip_unlimited :
    (wall : ℕ) (ip action : Text) (db : AuthDb)
    → check_rate_limit wall ip action db ≡ returned tt db
    → check_client_ip wall (some ip) action db ≡ returned tt db
client_ip_unlimited wall [] action db h = refl
client_ip_unlimited wall (c ∷ ip) action db h = h

-- The limit on the address of a client never triggers: attempts are recorded for emails only, so
-- after any sequence of requests from tables without attempts, none with that very text as its
-- email, every check of the address passes, however many of the requests came from it.
pub check_client_ip_passes :
    (c : Crypto) (events : List (ℕ × Request)) (db : AuthDb) (ip action : Text) (wall : ℕ)
    → db.rate_limits ≡ []
    → All (λ (e : ℕ × Request). Spares ip (limited_as e.1)) events
    → check_client_ip wall (some ip) action (run c events db) ≡ returned tt (run c events db)
unfolding fetch_rate_limit_count
check_client_ip_passes c events db ip action wall empty spares =
    client_ip_unlimited wall ip action (run c events db) (
      unlimited wall ip action (run c events db) (λ window.
        fetch_rate_limit_count_of_others c events db ip action wall window spares ∙ rw empty refl))

-- Every attempt was made by a moment.
abbrev pub MadeBy : ℕ → List Attempt → Type 0
MadeBy t = All (λ a. a.attempt_at ≤ t)

MadeBy-later : (t t' : ℕ) (rows : List Attempt) → t ≤ t' → MadeBy t rows → MadeBy t' rows
MadeBy-later t t' [] later h = h
MadeBy-later t t' (a ∷ rows) later h = (omega arith, MadeBy-later t t' rows later h.1)

Recorded-MadeBy :
    (o : Option (Text × Text)) (t : ℕ) (db db' : AuthDb)
    → Recorded o t db db'
    → MadeBy t db.rate_limits
    → MadeBy t db'.rate_limits
Recorded-MadeBy none t db db' same made = rw same made
Recorded-MadeBy (some (i, a)) t db db' (inl same) made = rw same made
Recorded-MadeBy (some (i, a)) t db db' (inr (_, inl e)) made = rw e (omega arith, made)
Recorded-MadeBy (some (i, a)) t db db' (inr (_, inr e)) made = rw e (omega arith, made)

run-MadeBy :
    (c : Crypto) (from : ℕ) (events : List (ℕ × Request)) (db : AuthDb)
    → InOrder from events
    → MadeBy from db.rate_limits
    → MadeBy (last_moment from events) (run c events db).rate_limits
run-MadeBy c from [] db ordered made = made
run-MadeBy c from ((t, r) ∷ events) db ordered made =
    run-MadeBy c t events (serve c t r db) ordered.1 (
      Recorded-MadeBy (limited_as r) t db (serve c t r db) (serve-Recorded c t r db)
        (MadeBy-later from t db.rate_limits ordered.0 made))

count_old :
    (j action : Text) (t wall window : ℕ) (rows : List Attempt)
    → MadeBy t rows
    → t + window ≤ wall
    → count_where (in_window j action wall window) rows ≡ 0
count_old j action t wall window [] made old = refl
count_old j action t wall window (a ∷ rows) made old =
    ground (arith, count_old j action t wall window rows made.1 old)

-- Every lockout ends: an hour after the last of the requests, whatever they were, the limit of
-- every action lets every identifier through again.
pub check_rate_limit_lifts :
    (c : Crypto) (from : ℕ) (events : List (ℕ × Request)) (db : AuthDb) (j action : Text) (wall : ℕ)
    → db.rate_limits ≡ []
    → InOrder from events
    → last_moment from events + 3600 ≤ wall
    → check_rate_limit wall j action (run c events db) ≡ returned tt (run c events db)
unfolding check_rate_limit rate_limits_for fetch_rate_limit_count
check_rate_limit_lifts c from events db j action wall empty ordered old =
    let made = run-MadeBy c from events db ordered (rw empty tt) in
    let last = last_moment from events in
    let rows = (run c events db).rate_limits in
    ground (
      arith,
      count_old j action last wall 3600 rows made old,
      count_old j action last wall 900 rows made (omega arith),
    )
