-- ===== src/Auth/Answers.antt =====
-- The limits on attempts of apps/api/services/auth_service.py against the requests that are answered,
-- whatever is recorded of them.
use genjishimada.Base.{
  ℕ, suc, ◌+◌, ◌≡◌, refl, ◌≤◌, ◌⊎◌, Bool, true, false, ◌&&◌, Option, none, some, List, [], ◌∷◌,
  arith, inl, inr, ltb, Bool-cases, if◌then◌else◌,
}
use genjishimada.Base.Rows.{count_where}
use genjishimada.Base.Text.{Text, lower, codes, text_eq}
use genjishimada.Auth.Tables.{AuthDb}
use genjishimada.Auth.Action.{
  Action, Result, ok, err, Outcome, returned, raised, tables_of, invalid_credentials,
  email_already_exists, rate_limit_exceeded, ◌>>◌,
}
use genjishimada.Auth.Limits.{check_rate_limit, check_client_ip, rate_limits_for}
use genjishimada.Auth.Repository.{
  attempt, in_window, fetch_rate_limit_count, record_attempt, check_email_exists,
  insert_email_token, invalidate_user_tokens, generate_next_user_id, create_core_user,
  create_email_auth,
}
use genjishimada.Auth.Service.{
  Crypto, EmailRegisterRequest, EmailLoginRequest, replace_token, create_account, register, login,
  login_user, register_user, resend_link, request_link, resend_verification, request_password_reset,
}
use genjishimada.Auth.Attempts.{limited}
use genjishimada.Auth.Validation.{is_email, validate_email, validate_password, validate_username}
use genjishimada.Auth.Runs.{
  Request, registers, logs_in, verifies, resends, requests_reset, confirms_reset, reads_session,
  writes_session, destroys_session, collects_sessions, logs_out, remembers, recalls, forgets, serve,
  run, InOrder, last_moment, limited_as,
}
use genjishimada.Auth.RateBounds.{Recorded, serve-Recorded, count_bounded}

module _ {A : Type 0} where
  abbrev pub returns : Outcome A → Bool
  returns (returned a db) = true
  returns (raised e db) = false

  -- A login that succeeds, or whose credentials are refused.
  abbrev pub tries_password : Outcome A → Bool
  tries_password (returned a db) = true
  tries_password (raised (invalid_credentials email) db) = true
  tries_password (raised e db) = false

  -- A registration that succeeds, or that is refused because the email is taken.
  abbrev pub tries_email : Bool → Outcome A → Bool
  tries_email exists (returned a db) = true
  tries_email exists (raised (email_already_exists email) db) = exists
  tries_email exists (raised e db) = false

-- Whether a request of a limited kind is answered.
abbrev pub answered : Crypto → ℕ → Request → AuthDb → Bool
answered c t (registers salt token r ip) db =
    tries_email (check_email_exists r.email db) (register c t t salt token r ip db)
answered c t (logs_in r ip) db = tries_password (login c t t r ip db)
answered c t (resends token email ip) db = returns (resend_verification c t t token email ip db)
answered c t (requests_reset token email ip) db =
    returns (request_password_reset c t t token email ip db)
answered c t _ db = false

-- A request records an attempt.
abbrev Adds : ℕ → Text → Text → AuthDb → AuthDb → Type 0
Adds now identifier action db db' =
    (db'.rate_limits ≡ attempt now identifier action true ∷ db.rate_limits)
    ⊎ (db'.rate_limits ≡ attempt now identifier action false ∷ db.rate_limits)

Adds-limited :
    {A : Type 0} (answers : Outcome A → Bool) (wall now : ℕ) (identifier action : Text)
    (ip : Option Text) (m : Action A) (db : AuthDb)
    → answers (raised (rate_limit_exceeded action) db) ≡ false
    → (answers (m db) ≡ true → Adds now identifier action db (tables_of (m db)))
    → answers
        ((check_rate_limit wall identifier action >> (check_client_ip wall ip action >> m)) db)
      ≡ true
    → Adds now identifier action db (
        tables_of
          ((check_rate_limit wall identifier action >> (check_client_ip wall ip action >> m)) db))
Adds-limited answers wall now identifier action ip m db refused adds h =
    elim (limited wall identifier action ip m db) [
      | inl stopped ↦ absurd (ground (arith, stopped, refused))
      | inr (passed, e) ↦ rw e (adds (rw e at h))
    ]

login-Adds :
    (c : Crypto) (t : ℕ) (r : EmailLoginRequest) (ip : Option Text) (db : AuthDb)
    → tries_password (login c t t r ip db) ≡ true
    → Adds t (lower r.email) (codes "login") db (tables_of (login c t t r ip db))
unfolding login login_user record_attempt
login-Adds c t r ip db h =
    Adds-limited tries_password t t (lower r.email) (codes "login") ip (login_user c t t r) db refl
      (λ answer. ground (arith, answer)) h

abbrev names_taken : Result (Unit {0}) → Bool
names_taken (err (email_already_exists email)) = true
names_taken (err e) = false
names_taken (ok a) = false

email-untaken : (s : Text) → names_taken (validate_email s) ≡ false
unfolding validate_email
email-untaken s = elim (Bool-cases (is_email s)) [
  | inl valid ↦ rw (valid) refl
  | inr invalid ↦ rw (invalid) refl
]

password-untaken : (p : Text) → names_taken (validate_password p) ≡ false
unfolding validate_password
password-untaken p = ground arith

username-untaken : (s : Text) → names_taken (validate_username s) ≡ false
unfolding validate_username
username-untaken s = ground arith

register-Adds :
    (c : Crypto) (t : ℕ) (salt token : Text) (r : EmailRegisterRequest) (ip : Option Text)
    (db : AuthDb)
    → tries_email (check_email_exists r.email db) (register c t t salt token r ip db) ≡ true
    → Adds t (lower r.email) (codes "register") db (tables_of (register c t t salt token r ip db))
unfolding register register_user record_attempt create_account generate_next_user_id
    create_core_user create_email_auth insert_email_token
register-Adds c t salt token r ip db h =
    Adds-limited (tries_email (check_email_exists r.email db)) t t (lower r.email)
      (codes "register") ip (register_user c t t salt token r) db refl
      (λ answer. ground (
        arith,
        answer,
        email-untaken r.email,
        password-untaken r.password,
        username-untaken r.username,
      ))
      h

resend-Adds :
    (c : Crypto) (t : ℕ) (token email : Text) (ip : Option Text) (db : AuthDb)
    → returns (resend_verification c t t token email ip db) ≡ true
    → Adds t
        (lower email)
        (codes "verification_resend")
        db
        (tables_of (resend_verification c t t token email ip db))
unfolding resend_verification resend_link record_attempt replace_token insert_email_token
    invalidate_user_tokens
resend-Adds c t token email ip db h =
    Adds-limited returns t t (lower email) (codes "verification_resend") ip
      (resend_link c t t token email) db refl (λ answer. ground (arith, answer)) h

request-Adds :
    (c : Crypto) (t : ℕ) (token email : Text) (ip : Option Text) (db : AuthDb)
    → returns (request_password_reset c t t token email ip db) ≡ true
    → Adds t
        (lower email)
        (codes "password_reset")
        db
        (tables_of (request_password_reset c t t token email ip db))
unfolding request_password_reset request_link record_attempt replace_token insert_email_token
    invalidate_user_tokens
request-Adds c t token email ip db h =
    Adds-limited returns t t (lower email) (codes "password_reset") ip
      (request_link c t t token email) db refl (λ answer. ground (arith, answer)) h

-- Whether a request at a moment counts for an identifier and an action in the window up to another.
abbrev pub counts : Text → Text → ℕ → ℕ → ℕ → Option (Text × Text) → Bool
counts j action t window moment none = false
counts j action t window moment (some (identifier, made_as)) =
    text_eq (lower identifier) (lower j) && text_eq made_as action && ltb t (moment + window)

both_true : (a b : Bool) → a && b ≡ true → (a ≡ true) × (b ≡ true)
both_true a b h = ground arith

Adds-count :
    (t' : ℕ) (identifier made_as j action : Text) (t window : ℕ) (db db' : AuthDb)
    → Adds t' identifier made_as db db'
    → counts j action t window t' (some (identifier, made_as)) ≡ true
    → count_where (in_window j action t window) db'.rate_limits
      ≡ suc (count_where (in_window j action t window) db.rate_limits)
Adds-count t' identifier made_as j action t window db db' (inl e) near = rw e (ground (arith, near))
Adds-count t' identifier made_as j action t window db db' (inr e) near = rw e (ground (arith, near))

step_counted :
    (c : Crypto) (t' : ℕ) (r : Request) (j action : Text) (t window : ℕ) (db : AuthDb)
    → answered c t' r db && counts j action t window t' (limited_as r) ≡ true
    → count_where (in_window j action t window) (serve c t' r db).rate_limits
      ≡ suc (count_where (in_window j action t window) db.rate_limits)
step_counted c t' (registers salt token r ip) j action t window db h =
    let (answer, near) = both_true _ _ h in
    Adds-count t' (lower r.email) (codes "register") j action t window db
      (serve c t' (registers salt token r ip) db) (register-Adds c t' salt token r ip db answer)
      near
step_counted c t' (logs_in r ip) j action t window db h =
    let (answer, near) = both_true _ _ h in
    Adds-count t' (lower r.email) (codes "login") j action t window db
      (serve c t' (logs_in r ip) db) (login-Adds c t' r ip db answer) near
step_counted c t' (resends token email ip) j action t window db h =
    let (answer, near) = both_true _ _ h in
    Adds-count t' (lower email) (codes "verification_resend") j action t window db
      (serve c t' (resends token email ip) db) (resend-Adds c t' token email ip db answer) near
step_counted c t' (requests_reset token email ip) j action t window db h =
    let (answer, near) = both_true _ _ h in
    Adds-count t' (lower email) (codes "password_reset") j action t window db
      (serve c t' (requests_reset token email ip) db) (request-Adds c t' token email ip db answer)
      near
step_counted c t' (verifies token) j action t window db h = ground arith
step_counted c t' (confirms_reset salt token password) j action t window db h = ground arith
step_counted c t' (reads_session id) j action t window db h = ground arith
step_counted c t' (writes_session id payload u ip agent) j action t window db h = ground arith
step_counted c t' (destroys_session id) j action t window db h = ground arith
step_counted c t' collects_sessions j action t window db h = ground arith
step_counted c t' (logs_out u kept) j action t window db h = ground arith
step_counted c t' (remembers token u ip agent) j action t window db h = ground arith
step_counted c t' (recalls token) j action t window db h = ground arith
step_counted c t' (forgets u) j action t window db h = ground arith

Recorded-kept :
    (o : Option (Text × Text)) (t' : ℕ) (j action : Text) (t window : ℕ) (db db' : AuthDb)
    → Recorded o t' db db'
    → count_where (in_window j action t window) db.rate_limits
      ≤ count_where (in_window j action t window) db'.rate_limits
Recorded-kept none t' j action t window db db' same = rw same (omega arith)
Recorded-kept (some (identifier, made_as)) t' j action t window db db' h = ground arith

-- How many requests of a run are answered for an identifier and an action in the window up to a
-- moment.
abbrev pub made : Crypto → Text → Text → ℕ → ℕ → List (ℕ × Request) → AuthDb → ℕ
made c j action t window [] db = 0
made c j action t window ((moment, r) ∷ events) db =
    let rest = made c j action t window events (serve c moment r db) in
    if answered c moment r db && counts j action t window moment (limited_as r)
    then suc rest
    else rest

made-recorded :
    (c : Crypto) (j action : Text) (t window : ℕ) (events : List (ℕ × Request)) (db : AuthDb)
    → made c j action t window events db + count_where (in_window j action t window) db.rate_limits
      ≤ count_where (in_window j action t window) (run c events db).rate_limits
made-recorded c j action t window [] db = omega arith
made-recorded c j action t window ((moment, r) ∷ events) db =
    let rest = made-recorded c j action t window events (serve c moment r db) in
    elim (Bool-cases (answered c moment r db && counts j action t window moment (limited_as r))) [
      | inl counted ↦
          rw counted (omega (arith, rest, step_counted c moment r j action t window db counted))
      | inr passed ↦ rw passed (
          omega (
            arith,
            rest,
            Recorded-kept (limited_as r) moment j action t window db (serve c moment r db)
                (serve-Recorded c moment r db),
          ))
    ]

-- From tables without attempts, no sequence of requests in the order of time gets more requests of
-- a limited action answered within the window of its limit than the limit allows, for any
-- identifier up to case: logins that succeed or whose credentials are refused, registrations that
-- succeed or find the email taken, and links that are sent or, for a reset, not sent without an
-- account. Requests that end in another exception do not count.
pub rate_limits_hold :
    (c : Crypto) (from : ℕ) (events : List (ℕ × Request)) (db : AuthDb) (identifier action : Text)
    (max_attempts window t : ℕ)
    → db.rate_limits ≡ []
    → InOrder from events
    → rate_limits_for action ≡ some (max_attempts, window)
    → last_moment from events ≤ t
    → made c identifier action t window events db ≤ max_attempts
unfolding fetch_rate_limit_count
rate_limits_hold c from events db identifier action max_attempts window t empty ordered limit
      later =
    omega (
      arith,
      made-recorded c identifier action t window events db,
      count_bounded c from events db identifier action max_attempts window t empty ordered limit
          later,
    )
