-- ===== src/Auth/Attempts.antt =====
-- What each request of apps/api/services/auth_service.py records as an attempt.
use genjishimada.Base.{ℕ, ◌≡◌, refl, ◌⊎◌, true, false, Option, none, some, arith, inl, [], ◌∷◌}
use genjishimada.Base.Text.{Text, lower, codes}
use genjishimada.Auth.Tables.{AuthDb}
use genjishimada.Auth.Action.{Action, returned, raised, tables_of, rate_limit_exceeded, ◌>>◌}
use genjishimada.Auth.Limits.{check_rate_limit, check_client_ip}
use genjishimada.Auth.Repository.{
  attempt, record_attempt, insert_email_token, invalidate_user_tokens, generate_next_user_id,
  create_core_user, create_email_auth, mark_token_used, mark_email_verified, update_password,
  revoke_remember_tokens,
}
use genjishimada.Auth.Service.{
  Crypto, EmailRegisterRequest, EmailLoginRequest, replace_token, create_account, register, login,
  login_user, register_user, resend_link, request_link, verify_email, resend_verification,
  request_password_reset, confirm_password_reset,
}

-- A request records nothing, or it has passed the limit of its identifier and records one attempt.
abbrev pub Attempts : ℕ → ℕ → Text → Text → AuthDb → AuthDb → Type 0
Attempts wall now identifier action db db' =
    (db'.rate_limits ≡ db.rate_limits)
    ⊎ ((check_rate_limit wall identifier action db ≡ returned tt db)
        × ((db'.rate_limits ≡ attempt now identifier action true ∷ db.rate_limits)
            ⊎ (db'.rate_limits ≡ attempt now identifier action false ∷ db.rate_limits)))

check_rate_limit-cases :
    (wall : ℕ) (identifier action : Text) (db : AuthDb)
    → (check_rate_limit wall identifier action db ≡ returned tt db)
      ⊎ (check_rate_limit wall identifier action db ≡ raised (rate_limit_exceeded action) db)
unfolding check_rate_limit
check_rate_limit-cases wall identifier action db = ground arith

check_client_ip-cases :
    (wall : ℕ) (ip : Option Text) (action : Text) (db : AuthDb)
    → (check_client_ip wall ip action db ≡ returned tt db)
      ⊎ (check_client_ip wall ip action db ≡ raised (rate_limit_exceeded action) db)
check_client_ip-cases wall none action db = inl refl
check_client_ip-cases wall (some []) action db = inl refl
check_client_ip-cases wall (some (c ∷ ip)) action db =
    check_rate_limit-cases wall (c ∷ ip) action db

-- A limited request is refused with its tables unchanged, or it has passed both limits.
pub limited :
    {A : Type 0} (wall : ℕ) (identifier action : Text) (ip : Option Text) (m : Action A)
    (db : AuthDb)
    → ((check_rate_limit wall identifier action >> (check_client_ip wall ip action >> m)) db
        ≡ raised (rate_limit_exceeded action) db)
      ⊎ ((check_rate_limit wall identifier action db ≡ returned tt db)
          × ((check_rate_limit wall identifier action >> (check_client_ip wall ip action >> m)) db
              ≡ m db))
limited wall identifier action ip m db = ground (
  arith,
  check_rate_limit-cases wall identifier action db,
  check_client_ip-cases wall ip action db,
)

-- What a request records where it has passed the limits: nothing, or one attempt.
abbrev pub Records : ℕ → Text → Text → AuthDb → AuthDb → Type 0
Records now identifier action db db' =
    (db'.rate_limits ≡ db.rate_limits)
    ⊎ ((db'.rate_limits ≡ attempt now identifier action true ∷ db.rate_limits)
        ⊎ (db'.rate_limits ≡ attempt now identifier action false ∷ db.rate_limits))

Attempts-limited :
    {A : Type 0} (wall now : ℕ) (identifier action : Text) (ip : Option Text) (m : Action A)
    (db : AuthDb)
    → Records now identifier action db (tables_of (m db))
    → Attempts wall now identifier action db (
        tables_of
          ((check_rate_limit wall identifier action >> (check_client_ip wall ip action >> m)) db))
Attempts-limited wall now identifier action ip m db records =
    ground (arith, limited wall identifier action ip m db)

pub login-Attempts :
    (crypto : Crypto) (wall now : ℕ) (request : EmailLoginRequest) (ip : Option Text) (db : AuthDb)
    → Attempts wall now
        (lower request.email)
        (codes "login")
        db
        (tables_of (login crypto wall now request ip db))
unfolding login login_user record_attempt
login-Attempts crypto wall now request ip db =
    Attempts-limited wall now (lower request.email) (codes "login") ip
      (login_user crypto wall now request) db (ground arith)

pub resend_verification-Attempts :
    (crypto : Crypto) (wall now : ℕ) (token email : Text) (ip : Option Text) (db : AuthDb)
    → Attempts wall now
        (lower email)
        (codes "verification_resend")
        db
        (tables_of (resend_verification crypto wall now token email ip db))
unfolding resend_verification resend_link record_attempt replace_token insert_email_token
    invalidate_user_tokens
resend_verification-Attempts crypto wall now token email ip db =
    Attempts-limited wall now (lower email) (codes "verification_resend") ip
      (resend_link crypto wall now token email) db (ground arith)

pub request_password_reset-Attempts :
    (crypto : Crypto) (wall now : ℕ) (token email : Text) (ip : Option Text) (db : AuthDb)
    → Attempts wall now
        (lower email)
        (codes "password_reset")
        db
        (tables_of (request_password_reset crypto wall now token email ip db))
unfolding request_password_reset request_link record_attempt replace_token insert_email_token
    invalidate_user_tokens
request_password_reset-Attempts crypto wall now token email ip db =
    Attempts-limited wall now (lower email) (codes "password_reset") ip
      (request_link crypto wall now token email) db (ground arith)

pub register-Attempts :
    (crypto : Crypto) (wall now : ℕ) (salt token : Text) (request : EmailRegisterRequest)
    (ip : Option Text) (db : AuthDb)
    → Attempts wall now
        (lower request.email)
        (codes "register")
        db
        (tables_of (register crypto wall now salt token request ip db))
unfolding register register_user record_attempt create_account generate_next_user_id
    create_core_user create_email_auth insert_email_token
register-Attempts crypto wall now salt token request ip db =
    Attempts-limited wall now (lower request.email) (codes "register") ip
      (register_user crypto wall now salt token request) db (ground arith)

pub verify_email-attempts :
    (crypto : Crypto) (wall now : ℕ) (token : Text) (db : AuthDb)
    → (tables_of (verify_email crypto wall now token db)).rate_limits ≡ db.rate_limits
unfolding verify_email mark_token_used mark_email_verified invalidate_user_tokens
verify_email-attempts crypto wall now token db = ground arith

pub confirm_password_reset-attempts :
    (crypto : Crypto) (wall now : ℕ) (salt token password : Text) (db : AuthDb)
    → (tables_of (confirm_password_reset crypto wall now salt token password db)).rate_limits
      ≡ db.rate_limits
unfolding confirm_password_reset mark_token_used update_password invalidate_user_tokens
    revoke_remember_tokens
confirm_password_reset-attempts crypto wall now salt token password db = ground arith
