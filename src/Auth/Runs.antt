-- ===== src/Auth/Runs.antt =====
-- Sequences of requests to `AuthService`, each at a moment that both clocks show.
use genjishimada.Base.{ℕ, ◌≤◌, Option, none, some, List, [], ◌∷◌}
use genjishimada.Base.Text.{Text, lower, codes}
use genjishimada.Auth.Tables.{AuthDb}
use genjishimada.Auth.Action.{tables_of}
use genjishimada.Auth.Repository.{revoke_remember_tokens}
use genjishimada.Auth.Service.{
  Crypto, EmailRegisterRequest, EmailLoginRequest, register, login, verify_email,
  resend_verification, request_password_reset, confirm_password_reset,
}
use genjishimada.Auth.SessionService.{
  session_read, session_write, session_destroy, session_gc, session_destroy_all_for_user,
  create_remember_token, validate_remember_token,
}

-- The requests that change tables, with what the generators give for them.
pub data Request : Type 0 where
  registers : Text → Text → EmailRegisterRequest → Option Text → Request
  logs_in : EmailLoginRequest → Option Text → Request
  verifies : Text → Request
  resends : Text → Text → Option Text → Request
  requests_reset : Text → Text → Option Text → Request
  confirms_reset : Text → Text → Text → Request
  reads_session : Text → Request
  writes_session : Text → Text → Option ℕ → Option Text → Option Text → Request
  destroys_session : Text → Request
  collects_sessions : Request
  logs_out : ℕ → Option Text → Request
  remembers : Text → ℕ → Option Text → Option Text → Request
  recalls : Text → Request
  forgets : ℕ → Request

-- The tables after a request.
abbrev pub serve : Crypto → ℕ → Request → AuthDb → AuthDb
serve c t (registers salt token r ip) db = tables_of (register c t t salt token r ip db)
serve c t (logs_in r ip) db = tables_of (login c t t r ip db)
serve c t (verifies token) db = tables_of (verify_email c t t token db)
serve c t (resends token email ip) db = tables_of (resend_verification c t t token email ip db)
serve c t (requests_reset token email ip) db =
    tables_of (request_password_reset c t t token email ip db)
serve c t (confirms_reset salt token password) db =
    tables_of (confirm_password_reset c t t salt token password db)
serve c t (reads_session id) db = tables_of (session_read t id db)
serve c t (writes_session id payload u ip agent) db =
    tables_of (session_write t id payload u ip agent db)
serve c t (destroys_session id) db = tables_of (session_destroy id db)
serve c t collects_sessions db = tables_of (session_gc t db)
serve c t (logs_out u kept) db = tables_of (session_destroy_all_for_user u kept db)
serve c t (remembers token u ip agent) db =
    tables_of (create_remember_token c t token u ip agent db)
serve c t (recalls token) db = tables_of (validate_remember_token c t token db)
serve c t (forgets u) db = tables_of (revoke_remember_tokens u db)

abbrev pub run : Crypto → List (ℕ × Request) → AuthDb → AuthDb
run c [] db = db
run c (e ∷ events) db = run c events (serve c e.0 e.1 db)

-- The requests come one after another, from a moment on.
abbrev pub InOrder : ℕ → List (ℕ × Request) → Type 0
InOrder from [] = Unit
InOrder from (e ∷ events) = (from ≤ e.0) × InOrder e.0 events

abbrev pub last_moment : ℕ → List (ℕ × Request) → ℕ
last_moment from [] = from
last_moment from (e ∷ events) = last_moment e.0 events

-- The email and the action that a request may record an attempt for.
abbrev pub limited_as : Request → Option (Text × Text)
limited_as (registers salt token r ip) = some (lower r.email, codes "register")
limited_as (logs_in r ip) = some (lower r.email, codes "login")
limited_as (resends token email ip) = some (lower email, codes "verification_resend")
limited_as (requests_reset token email ip) = some (lower email, codes "password_reset")
limited_as _ = none
