-- ===== src/Auth/Reachable.antt =====
-- The promise of the tables of the accounts through every sequence of requests.
use genjishimada.Base.{
  ℕ, ◌≡◌, ◌⊎◌, true, Option, none, some, List, [], ◌∷◌, arith, is_some, Option-cases, inl, inr,
}
use genjishimada.Base.Lists.{find?}
use genjishimada.Base.Text.{Text}
use genjishimada.Auth.Tables.{AuthDb, EmailAuth}
use genjishimada.Auth.Validation.{is_email}
use genjishimada.Auth.Rows.{AuthRows}
use genjishimada.Auth.Masking.{mask_email_of_email}
use genjishimada.Auth.Action.{returned, raised, user_not_found}
use genjishimada.Auth.Repository
use genjishimada.Auth.Repository.{revoke_remember_tokens, belongs_to}
use genjishimada.Auth.SessionRepository
use genjishimada.Auth.SessionRepository.{
  read_session, write_session, delete_session, delete_expired_sessions, delete_user_sessions,
}
use genjishimada.Auth.SessionService.{
  EmailAuthStatus, session_read, create_remember_token, validate_remember_token, get_auth_status,
  mask_email,
}
use genjishimada.Auth.Service.{Crypto}
use genjishimada.Auth.Runs.{
  Request, registers, logs_in, verifies, resends, requests_reset, confirms_reset, reads_session,
  writes_session, destroys_session, collects_sessions, logs_out, remembers, recalls, forgets, serve,
  run,
}
use genjishimada.Auth.Invariant.{
  Wf, Same, Wf-Same, login-Wf, resend_verification-Wf, request_password_reset-Wf,
}
use genjishimada.Auth.Promises.{verify_email-Wf, confirm_password_reset-Wf}
use genjishimada.Auth.Registrations.{register-Wf}

session_requests-Same :
    (c : Crypto) (t : ℕ) (id payload token : Text) (u : ℕ) (o : Option ℕ)
    (kept ip agent : Option Text) (db : AuthDb)
    → Same db (serve c t (reads_session id) db)
      × Same db (serve c t (writes_session id payload o ip agent) db)
      × Same db (serve c t (remembers token u ip agent) db)
      × Same db (serve c t (recalls token) db)
unfolding session_read read_session write_session create_remember_token validate_remember_token
    SessionRepository.create_remember_token SessionRepository.validate_remember_token
session_requests-Same c t id payload token u o kept ip agent db =
    (ground arith, ground arith, ground arith, ground arith)

pub serve-Wf : (c : Crypto) (t : ℕ) (r : Request) (db : AuthDb) → Wf db → Wf (serve c t r db)
unfolding delete_session delete_expired_sessions delete_user_sessions revoke_remember_tokens
serve-Wf c t (registers salt token r ip) db wf = register-Wf c t t salt token r ip db wf
serve-Wf c t (logs_in r ip) db wf = login-Wf c t t r ip db wf
serve-Wf c t (verifies token) db wf = verify_email-Wf c t t token db wf
serve-Wf c t (resends token email ip) db wf = resend_verification-Wf c t t token email ip db wf
serve-Wf c t (requests_reset token email ip) db wf =
    request_password_reset-Wf c t t token email ip db wf
serve-Wf c t (confirms_reset salt token password) db wf =
    confirm_password_reset-Wf c t t salt token password db wf
serve-Wf c t (reads_session id) db wf =
    Wf-Same db (serve c t (reads_session id) db)
      (session_requests-Same c t id [] [] 0 none none none none db).0 wf
serve-Wf c t (writes_session id payload o ip agent) db wf =
    Wf-Same db (serve c t (writes_session id payload o ip agent) db)
      (session_requests-Same c t id payload [] 0 o none ip agent db).1 wf
serve-Wf c t (destroys_session id) db wf = wf
serve-Wf c t collects_sessions db wf = wf
serve-Wf c t (logs_out u kept) db wf = wf
serve-Wf c t (remembers token u ip agent) db wf =
    Wf-Same db (serve c t (remembers token u ip agent) db)
      (session_requests-Same c t [] [] token u none none ip agent db).2 wf
serve-Wf c t (recalls token) db wf =
    Wf-Same db (serve c t (recalls token) db)
      (session_requests-Same c t [] [] token 0 none none none none db).3 wf
serve-Wf c t (forgets u) db wf = wf

-- Every sequence of requests, of any kind and at any moments, keeps the promise of the tables: the
-- emails of accounts are valid and distinct up to case, each user has at most one account, each
-- account and each token belongs to a user, and a user has at most one unused token of each type.
pub run-Wf : (c : Crypto) (events : List (ℕ × Request)) (db : AuthDb) → Wf db → Wf (run c events db)
run-Wf c [] db wf = wf
run-Wf c ((t, r) ∷ events) db wf = run-Wf c events (serve c t r db) (serve-Wf c t r db wf)

find_valid :
    (u : ℕ) (users : _) (rows : List EmailAuth) (row : EmailAuth)
    → AuthRows users rows
    → find? (belongs_to u) rows ≡ some row
    → is_email row.email ≡ true
find_valid u users [] row h e = absurd (ground arith)
find_valid u users (x ∷ rows) row h e = ground (arith, h.2, find_valid u users rows row h.4)

status_of_row :
    (u : ℕ) (db : AuthDb) (row : EmailAuth) (masked : Text)
    → find? (belongs_to u) db.email_auth ≡ some row
    → mask_email row.email ≡ some masked
    → get_auth_status u db
      ≡ returned (record { email = masked; email_verified = is_some row.email_verified_at }) db
unfolding get_auth_status Repository.get_auth_status
status_of_row u db row masked found e = ground arith

status_unknown :
    (u : ℕ) (db : AuthDb)
    → find? (belongs_to u) db.email_auth ≡ none
    → get_auth_status u db ≡ raised user_not_found db
unfolding get_auth_status Repository.get_auth_status
status_unknown u db missing = ground arith

-- After any sequence of requests the status of a user is given, or the user is not found: the
-- split of the email at its `@` never fails, since no email of an account got past the validation
-- without exactly one.
pub get_auth_status_of_any :
    (c : Crypto) (events : List (ℕ × Request)) (db : AuthDb) (u : ℕ)
    → Wf db
    → ((status : EmailAuthStatus) × (get_auth_status u (run c events db)
          ≡ returned status (run c events db)))
      ⊎ (get_auth_status u (run c events db) ≡ raised user_not_found (run c events db))
get_auth_status_of_any c events db u wf =
    let end = run c events db in
    let wf' = run-Wf c events db wf in
    elim (Option-cases (find? (belongs_to u) end.email_auth)) [
      | inl missing ↦ inr (status_unknown u end missing)
      | inr (row, found) ↦
          let valid = find_valid u end.users end.email_auth row wf'.0 found in
          elim (Option-cases (mask_email row.email)) [
            | inl unmasked ↦ absurd (ground (arith, mask_email_of_email row.email valid))
            | inr (masked, e) ↦ inl (
              record { email = masked; email_verified = is_some row.email_verified_at },
              status_of_row u end row masked found e,
            )
          ]
    ]
