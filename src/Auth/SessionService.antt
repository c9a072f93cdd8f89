-- ===== src/Auth/SessionService.antt =====
-- `AuthService` of apps/api/services/auth_service.py: sessions, remember tokens and the status of
-- an account. `wall` is the service's clock, `now` the database's.
use genjishimada.Base.{
  ℕ, ◌+◌, ◌*◌, Bool, true, false, Option, none, some, List, [], ◌∷◌, ◌++◌, ◌==◌, is_some,
  if◌then◌else◌,
}
use genjishimada.Base.Text.{Text, codes}
use genjishimada.Auth.Tables.{Session, EmailAuth}
use genjishimada.Auth.Action.{
  Action, user_not_found, pure, raise, gets, or_raise, value_error, ◌>>=◌, ◌>>◌,
}
use genjishimada.Auth.Repository
use genjishimada.Auth.Repository.{revoke_remember_tokens}
use genjishimada.Auth.SessionRepository
use genjishimada.Auth.SessionRepository.{
  read_session, write_session, delete_session, delete_expired_sessions, get_user_sessions,
  delete_user_sessions, check_is_mod,
}
use genjishimada.Auth.Service.{Crypto}

-- `SESSION_LIFETIME_MINUTES`
abbrev pub session_lifetime_minutes : ℕ
session_lifetime_minutes = 129600

abbrev pub is_truthy_text : Option Text → Bool
is_truthy_text none = false
is_truthy_text (some []) = false
is_truthy_text (some (c ∷ s)) = true

pub record SessionReadResponse : Type 0 where
  pub payload : Option Text
  pub is_mod : Bool

pub record EmailAuthStatus : Type 0 where
  pub email : Text
  pub email_verified : Bool

-- `session_read`
unfoldable pub session_read : ℕ → Text → Action SessionReadResponse
session_read now id = do
  payload ← read_session now id session_lifetime_minutes
  is_mod ← (elim (is_truthy_text payload) [ true ↦ gets (check_is_mod id) | false ↦ pure false ])
  pure (record { payload = payload; is_mod = is_mod })

-- `session_write`
abbrev pub session_write :
    ℕ → Text → Text → Option ℕ → Option Text → Option Text → Action (Unit {0})
session_write = write_session

-- `session_destroy`
abbrev pub session_destroy : Text → Action Bool
session_destroy = delete_session

-- `session_gc`
abbrev pub session_gc : ℕ → Action ℕ
session_gc now = delete_expired_sessions now session_lifetime_minutes

-- `session_get_user_sessions`
abbrev pub session_get_user_sessions : ℕ → ℕ → Action (List Session)
session_get_user_sessions now u = gets (get_user_sessions now u session_lifetime_minutes)

-- `session_destroy_all_for_user`
abbrev pub session_destroy_all_for_user : ℕ → Option Text → Action ℕ
session_destroy_all_for_user = delete_user_sessions

-- `logout_all_sessions`
abbrev pub logout_all_sessions : ℕ → Option Text → Action ℕ
logout_all_sessions = delete_user_sessions

-- `revoke_all_remember_tokens`
abbrev pub revoke_all_remember_tokens : ℕ → Action ℕ
revoke_all_remember_tokens = revoke_remember_tokens

-- `create_remember_token`, of the token that the generator gives; it lasts 30 days.
unfoldable pub create_remember_token :
    Crypto → ℕ → Text → ℕ → Option Text → Option Text → Action Text
create_remember_token crypto wall token u ip_address user_agent = do
  SessionRepository.create_remember_token u (crypto.sha256 token) (wall + 30 * 86400) ip_address
      user_agent
  pure token

-- `validate_remember_token`: the user, where the token is valid.
unfoldable pub validate_remember_token : Crypto → ℕ → Text → Action (Option ℕ)
validate_remember_token crypto now token =
    SessionRepository.validate_remember_token now (crypto.sha256 token)

-- `str.split("@")`
abbrev pub split_at : Text → List Text
split_at [] = [] ∷ []
split_at (c ∷ s) = elim (split_at s) [
  | [] ↦ []
  | word ∷ words ↦ if c == 64 then [] ∷ word ∷ words else (c ∷ word) ∷ words
]

abbrev pub masked_local : Text → Text
masked_local (c ∷ d ∷ s) = c ∷ codes "***"
masked_local _ = codes "***"

-- The masked email: the pair `local, domain = …` takes exactly two parts.
abbrev pub mask_parts : List Text → Option Text
mask_parts (local ∷ domain ∷ []) = some (masked_local local ++ 64 ∷ domain)
mask_parts _ = none

unfoldable pub mask_email : Text → Option Text
mask_email email = mask_parts (split_at email)

abbrev pub auth_status : EmailAuth → Action EmailAuthStatus
auth_status row = do
  masked ← or_raise (mask_email row.email) value_error
  pure (record { email = masked; email_verified = is_some row.email_verified_at })

-- `get_auth_status`
unfoldable pub get_auth_status : ℕ → Action EmailAuthStatus
get_auth_status u = do
  row ← gets (Repository.get_auth_status u)
  (elim row [ none ↦ raise user_not_found | some r ↦ auth_status r ])
