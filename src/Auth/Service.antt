-- ===== src/Auth/Service.antt =====
-- `AuthService` of apps/api/services/auth_service.py: registering, logging in, verifying an email
-- and resetting a password. `wall` is the service's clock, `now` the database's.
use genjishimada.Base.{ℕ, ◌+◌, ◌*◌, Bool, true, false, Option, none, some, ltb, is_some}
use genjishimada.Base.Int.{ℤ}
use genjishimada.Base.Text.{Text, codes, lower}
use genjishimada.Auth.Tables.{TokenType, verification, password_reset}
use genjishimada.Auth.Action.{
  Action, invalid_credentials, email_already_exists, token_expired, token_already_used,
  token_invalid, email_already_verified, user_not_found, pure, raise, gets, lift, or_raise,
  value_error, modify, raise_if, transaction, on_violation, ◌>>=◌, ◌>>◌,
}
use genjishimada.Auth.Validation.{validate_email, validate_password, validate_username}
use genjishimada.Auth.Limits.{check_rate_limit, check_client_ip}
use genjishimada.Auth.Repository.{
  Account, TokenData, record_attempt, check_email_exists, get_user_by_email, generate_next_user_id,
  create_core_user, create_email_auth, insert_email_token, get_token_with_user, mark_token_used,
  mark_email_verified, invalidate_user_tokens, update_password, revoke_remember_tokens,
}

-- The packages that hash. bcrypt's functions raise ValueError on what they do not take: `hashpw`
-- is given the password and the salt, `checkpw` the password and the stored hash.
pub record Crypto : Type 0 where
  pub hashpw : Text → Text → Option Text
  pub checkpw : Text → Text → Option Bool
  pub sha256 : Text → Text

pub record EmailRegisterRequest : Type 0 where
  pub email : Text
  pub password : Text
  pub username : Text

pub record EmailLoginRequest : Type 0 where
  pub email : Text
  pub password : Text

pub record AuthUserPublic : Type 0 where
  pub id : ℕ
  pub email : Text
  pub username : Text
  pub email_verified : Bool

pub record AuthUserResponse : Type 0 where
  pub id : ℕ
  pub email : Text
  pub username : Text
  pub email_verified : Bool
  pub coins : ℤ
  pub is_mod : Bool

pub record AuthUserVerify : Type 0 where
  pub id : ℕ
  pub email : Text
  pub username : Text
  pub email_verified : Bool
  pub is_mod : Bool

-- `VerificationEmailEvent` and `PasswordResetEmailEvent`
pub record EmailEvent : Type 0 where
  pub email : Text
  pub username : Text
  pub token : Text

abbrev pub login_response : Account → AuthUserResponse
login_response a = record {
  id = a.user_id;
  email = a.email;
  username = a.nickname;
  email_verified = is_some a.email_verified_at;
  coins = a.coins;
  is_mod = a.is_mod;
}

abbrev pub verified_user : Account → Bool → AuthUserVerify
verified_user a verified = record {
  id = a.user_id;
  email = a.email;
  username = a.nickname;
  email_verified = verified;
  is_mod = a.is_mod;
}

-- `record_attempt` with `success=False`, and what follows.
abbrev pub record_failure : {A : Type 0} → ℕ → Text → Text → Action A → Action A
record_failure now identifier action then_do = do
  modify (record_attempt now identifier action false)
  then_do

-- The token of a link, where it is known, unused and in time: `if token_data["expires_at"] < now`.
abbrev pub check_token : ℕ → TokenType → Option TokenData → Action TokenData
check_token wall token_type found = do
  t ← or_raise found (token_invalid token_type)
  raise_if (is_some t.used_at) (token_already_used token_type)
  raise_if (ltb t.expires_at wall) (token_expired token_type)
  pure t

module _ (crypto : Crypto) (wall now : ℕ) where
  -- The transaction of `register`.
  unfoldable pub create_account : EmailRegisterRequest → Text → Text → Action ℕ
  create_account request password_hash token = on_violation (email_already_exists request.email) (do
    user_id ← generate_next_user_id
    create_core_user user_id request.username
    create_email_auth user_id request.email password_hash
    insert_email_token user_id (crypto.sha256 token) verification (wall + 24 * 3600)
    pure user_id)

  -- The end of `register`, where there are not too many attempts.
  unfoldable pub register_user :
      Text → Text → EmailRegisterRequest → Action (AuthUserPublic × EmailEvent)
  register_user salt token request = do
    lift (validate_email request.email)
    lift (validate_password request.password)
    lift (validate_username request.username)
    exists ← gets (check_email_exists request.email)
    (elim exists [
      | true ↦
          record_failure now (lower request.email) (codes "register")
            (raise (email_already_exists request.email))
      | false ↦ do
        password_hash ← or_raise (crypto.hashpw request.password salt) value_error
        user_id ← transaction (create_account request password_hash token)
        modify (record_attempt now (lower request.email) (codes "register") true)
        pure (
          record {
            id = user_id;
            email = request.email;
            username = request.username;
            email_verified = false;
          },
          record { email = request.email; username = request.username; token = token },
        )
    ])

  -- `register`; `salt` and `token` are what the generators give.
  unfoldable pub register :
      Text → Text → EmailRegisterRequest → Option Text → Action (AuthUserPublic × EmailEvent)
  register salt token request client_ip = do
    check_rate_limit wall (lower request.email) (codes "register")
    check_client_ip wall client_ip (codes "register")
    register_user salt token request

  -- The end of `login`, on the user's row.
  abbrev pub log_in : EmailLoginRequest → Account → Action AuthUserResponse
  log_in request account = do
    matches ← or_raise (crypto.checkpw request.password account.password_hash) value_error
    (elim matches [
      | false ↦
          record_failure now (lower request.email) (codes "login")
            (raise (invalid_credentials (lower request.email)))
      | true ↦ do
        modify (record_attempt now (lower request.email) (codes "login") true)
        pure (login_response account)
    ])

  -- The end of `login`, where there are not too many attempts.
  unfoldable pub login_user : EmailLoginRequest → Action AuthUserResponse
  login_user request = do
    found ← gets (get_user_by_email request.email)
    (elim found [
      | none ↦
          record_failure now (lower request.email) (codes "login")
            (raise (invalid_credentials (lower request.email)))
      | some account ↦ log_in request account
    ])

  -- `login`
  unfoldable pub login : EmailLoginRequest → Option Text → Action AuthUserResponse
  login request client_ip = do
    check_rate_limit wall (lower request.email) (codes "login")
    check_client_ip wall client_ip (codes "login")
    login_user request

  -- The transaction of `verify_email`.
  abbrev pub consume_verification : Text → ℕ → Action (Unit {0})
  consume_verification token_hash u = do
    modify (mark_token_used now token_hash)
    modify (mark_email_verified now u)
    modify (invalidate_user_tokens now u verification)

  -- `verify_email`
  unfoldable pub verify_email : Text → Action AuthUserVerify
  verify_email token = do
    found ← gets (get_token_with_user (crypto.sha256 token) verification)
    t ← check_token wall verification found
    raise_if (is_some t.account.email_verified_at) email_already_verified
    transaction (consume_verification (crypto.sha256 token) t.account.user_id)
    pure (verified_user t.account true)

  -- The transaction of `resend_verification` and of `request_password_reset`.
  unfoldable pub replace_token : ℕ → TokenType → Text → ℕ → Action (Unit {0})
  replace_token u token_type token_hash expires_at = do
    modify (invalidate_user_tokens now u token_type)
    insert_email_token u token_hash token_type expires_at

  -- The end of `resend_verification`, where there are not too many attempts.
  unfoldable pub resend_link : Text → Text → Action EmailEvent
  resend_link token email = do
    found ← gets (get_user_by_email email)
    (elim found [
      | none ↦ raise user_not_found
      | some account ↦ do
        raise_if (is_some account.email_verified_at) email_already_verified
        transaction
            (replace_token account.user_id verification (crypto.sha256 token) (wall + 24 * 3600))
        modify (record_attempt now (lower email) (codes "verification_resend") true)
        pure (record { email = email; username = account.nickname; token = token })
    ])

  -- `resend_verification`
  unfoldable pub resend_verification : Text → Text → Option Text → Action EmailEvent
  resend_verification token email client_ip = do
    check_rate_limit wall (lower email) (codes "verification_resend")
    check_client_ip wall client_ip (codes "verification_resend")
    resend_link token email

  -- The end of `request_password_reset`: without an account there is no event to send.
  unfoldable pub request_link : Text → Text → Action (Option EmailEvent)
  request_link token email = do
    found ← gets (get_user_by_email email)
    (elim found [
      | none ↦ record_failure now (lower email) (codes "password_reset") (pure none)
      | some account ↦ do
        transaction
            (replace_token account.user_id password_reset (crypto.sha256 token) (wall + 3600))
        modify (record_attempt now (lower email) (codes "password_reset") true)
        pure (some (record { email = email; username = account.nickname; token = token }))
    ])

  -- `request_password_reset`
  unfoldable pub request_password_reset : Text → Text → Option Text → Action (Option EmailEvent)
  request_password_reset token email client_ip = do
    check_rate_limit wall (lower email) (codes "password_reset")
    check_client_ip wall client_ip (codes "password_reset")
    request_link token email

  -- The transaction of `confirm_password_reset`.
  abbrev pub consume_reset : Text → ℕ → Text → Action (Unit {0})
  consume_reset token_hash u password_hash = do
    modify (mark_token_used now token_hash)
    modify (update_password u password_hash)
    modify (invalidate_user_tokens now u password_reset)
    revoke_remember_tokens u
    pure tt

  -- `confirm_password_reset`, of a token and the new password
  unfoldable pub confirm_password_reset : Text → Text → Text → Action AuthUserVerify
  confirm_password_reset salt token password = do
    lift (validate_password password)
    found ← gets (get_token_with_user (crypto.sha256 token) password_reset)
    t ← check_token wall password_reset found
    password_hash ← or_raise (crypto.hashpw password salt) value_error
    transaction (consume_reset (crypto.sha256 token) t.account.user_id password_hash)
    pure (verified_user t.account (is_some t.account.email_verified_at))
