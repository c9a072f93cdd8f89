-- ===== src/Auth/Invariant.antt =====
-- The promise of the tables of the accounts, through single requests.
use genjishimada.Base.{
  ℕ, ◌+◌, ◌*◌, ◌≡◌, ◌⊎◌, true, Option, none, some, List, ◌∷◌, arith, Option-cases, inl, inr,
}
use genjishimada.Base.Dict.{Dict, contains}
use genjishimada.Base.Rows.{update_where}
use genjishimada.Base.Text.{Text, lower, codes}
use genjishimada.Auth.Tables.{
  User, EmailAuth, EmailToken, TokenType, verification, password_reset, AuthDb,
}
use genjishimada.Auth.Action.{Action, Outcome, returned, tables_of, transaction, ◌>>◌}
use genjishimada.Auth.Limits.{check_rate_limit, check_client_ip}
use genjishimada.Auth.Repository.{
  Account, is_live, used, new_email_token, record_attempt, get_user_by_email, insert_email_token,
  invalidate_user_tokens,
}
use genjishimada.Auth.Service.{
  Crypto, EmailLoginRequest, login_user, login, replace_token, resend_link, resend_verification,
  request_link, request_password_reset,
}
use genjishimada.Auth.Rows.{AuthRows, TokenRows, OneLive, TokenRows-used, OneLive-replaced}
use genjishimada.Auth.Attempts.{limited}

abbrev pub Wf : AuthDb → Type 0
Wf db =
    AuthRows db.users db.email_auth × TokenRows db.users db.email_tokens × OneLive db.email_tokens

-- Tables that differ in nothing the promise is about.
abbrev pub Same : AuthDb → AuthDb → Type 0
Same db db' =
    (db'.users ≡ db.users) × (db'.email_auth ≡ db.email_auth) × (db'.email_tokens ≡ db.email_tokens)

pub Wf-parts :
    (users users' : Dict User) (rows rows' : List EmailAuth) (tokens tokens' : List EmailToken)
    → users' ≡ users
    → rows' ≡ rows
    → tokens' ≡ tokens
    → AuthRows users rows × TokenRows users tokens × OneLive tokens
    → AuthRows users' rows' × TokenRows users' tokens' × OneLive tokens'
Wf-parts users users' rows rows' tokens tokens' e1 e2 e3 h = rw (e1, e2, e3) h

pub Wf-Same : (db db' : AuthDb) → Same db db' → Wf db → Wf db'
Wf-Same db db' same h =
    Wf-parts db.users db'.users db.email_auth db'.email_auth db.email_tokens db'.email_tokens same.0
      same.1 same.2 h

pub Wf-of : (A : Type 0) (o o' : Outcome A) → o ≡ o' → Wf (tables_of o') → Wf (tables_of o)
Wf-of A o o' e h = rw e h

-- A limited request keeps the promise where its end does.
pub Wf-limited :
    (A : Type 0) (wall : ℕ) (identifier action : Text) (ip : Option Text) (m : Action A)
    (db : AuthDb)
    → Wf db
    → Wf (tables_of (m db))
    → Wf (
        tables_of
          ((check_rate_limit wall identifier action >> (check_client_ip wall ip action >> m)) db))
Wf-limited A wall identifier action ip m db before after =
    elim (limited wall identifier action ip m db) [
      | inl refused ↦ rw refused before
      | inr (_, passed) ↦ rw passed after
    ]

login_user-Same :
    (c : Crypto) (wall now : ℕ) (request : EmailLoginRequest) (db : AuthDb)
    → Same db (tables_of (login_user c wall now request db))
unfolding login_user record_attempt
login_user-Same c wall now request db = ground arith

pub login-Wf :
    (c : Crypto) (wall now : ℕ) (request : EmailLoginRequest) (ip : Option Text) (db : AuthDb)
    → Wf db
    → Wf (tables_of (login c wall now request ip db))
unfolding login
login-Wf c wall now request ip db h =
    Wf-limited _ wall (lower request.email) (codes "login") ip (login_user c wall now request) db h
      (Wf-Same db (tables_of (login_user c wall now request db))
        (login_user-Same c wall now request db) h)

-- The tables have the same users and accounts, and a new token in place of the unused ones.
abbrev pub Replaced : AuthDb → AuthDb → TokenType → ℕ → ℕ → Text → ℕ → Type 0
Replaced db db' k now u h expires_at =
    (db'.users ≡ db.users)
    × (db'.email_auth ≡ db.email_auth)
    × (db'.email_tokens
        ≡ new_email_token u h k expires_at ∷ update_where (is_live u k) (used now) db.email_tokens)

Wf-Replaced :
    (db db' : AuthDb) (k : TokenType) (now u expires_at : ℕ) (h : Text)
    → Replaced db db' k now u h expires_at
    → contains u db.users ≡ true
    → Wf db
    → Wf db'
Wf-Replaced db db' k now u expires_at h e known wf =
    Wf-parts db.users db'.users db.email_auth db'.email_auth
      (new_email_token u h k expires_at ∷ update_where (is_live u k) (used now) db.email_tokens)
      db'.email_tokens e.0 e.1 e.2
      (
        wf.0,
        (known, TokenRows-used db.users (is_live u k) now db.email_tokens wf.1),
        OneLive-replaced u now h k expires_at db.email_tokens wf.2,
      )

replace_token-cases :
    (c : Crypto) (wall now u expires_at : ℕ) (k : TokenType) (h : Text) (db : AuthDb)
    → (Replaced db
          (tables_of (transaction (replace_token c wall now u k h expires_at) db))
          k
          now
          u
          h
          expires_at
        × (contains u db.users ≡ true)
        × (transaction (replace_token c wall now u k h expires_at) db
            ≡ returned tt (tables_of (transaction (replace_token c wall now u k h expires_at) db))))
      ⊎ Same db (tables_of (transaction (replace_token c wall now u k h expires_at) db))
unfolding replace_token invalidate_user_tokens insert_email_token
replace_token-cases c wall now u expires_at k h db = ground arith

-- The end of a request for a link keeps the promise where it replaces a token or changes nothing.
abbrev pub Link : AuthDb → AuthDb → TokenType → ℕ → ℕ → Text → ℕ → Type 0
Link db db' k now u h expires_at =
    (Replaced db db' k now u h expires_at × (contains u db.users ≡ true)) ⊎ Same db db'

Wf-Link :
    (db db' : AuthDb) (k : TokenType) (now u expires_at : ℕ) (h : Text)
    → Link db db' k now u h expires_at
    → Wf db
    → Wf db'
Wf-Link db db' k now u expires_at h (inl (e, known)) wf =
    Wf-Replaced db db' k now u expires_at h e known wf
Wf-Link db db' k now u expires_at h (inr same) wf = Wf-Same db db' same wf

resend_link-Link :
    (c : Crypto) (wall now : ℕ) (token email : Text) (db : AuthDb) (a : Account)
    → get_user_by_email email db ≡ some a
    → Link db
        (tables_of (resend_link c wall now token email db))
        verification
        now
        a.user_id
        (c.sha256 token)
        (wall + 24 * 3600)
unfolding resend_link record_attempt
resend_link-Link c wall now token email db a found = ground (
  arith,
  replace_token-cases c wall now a.user_id (wall + 24 * 3600) verification (c.sha256 token) db,
)

resend_link-unknown :
    (c : Crypto) (wall now : ℕ) (token email : Text) (db : AuthDb)
    → get_user_by_email email db ≡ none
    → Same db (tables_of (resend_link c wall now token email db))
unfolding resend_link record_attempt
resend_link-unknown c wall now token email db missing = ground arith

resend_link-Wf :
    (c : Crypto) (wall now : ℕ) (token email : Text) (db : AuthDb)
    → Wf db
    → Wf (tables_of (resend_link c wall now token email db))
resend_link-Wf c wall now token email db wf = elim (Option-cases (get_user_by_email email db)) [
  | inl e ↦
      Wf-Same db (tables_of (resend_link c wall now token email db))
        (resend_link-unknown c wall now token email db e) wf
  | inr (a, e) ↦
      Wf-Link db (tables_of (resend_link c wall now token email db)) verification now a.user_id
        (wall + 24 * 3600) (c.sha256 token) (resend_link-Link c wall now token email db a e) wf
]

request_link-Link :
    (c : Crypto) (wall now : ℕ) (token email : Text) (db : AuthDb) (a : Account)
    → get_user_by_email email db ≡ some a
    → Link db
        (tables_of (request_link c wall now token email db))
        password_reset
        now
        a.user_id
        (c.sha256 token)
        (wall + 3600)
unfolding request_link record_attempt
request_link-Link c wall now token email db a found = ground (
  arith,
  replace_token-cases c wall now a.user_id (wall + 3600) password_reset (c.sha256 token) db,
)

request_link-unknown :
    (c : Crypto) (wall now : ℕ) (token email : Text) (db : AuthDb)
    → get_user_by_email email db ≡ none
    → Same db (tables_of (request_link c wall now token email db))
unfolding request_link record_attempt
request_link-unknown c wall now token email db missing = ground arith

request_link-Wf :
    (c : Crypto) (wall now : ℕ) (token email : Text) (db : AuthDb)
    → Wf db
    → Wf (tables_of (request_link c wall now token email db))
request_link-Wf c wall now token email db wf = elim (Option-cases (get_user_by_email email db)) [
  | inl e ↦
      Wf-Same db (tables_of (request_link c wall now token email db))
        (request_link-unknown c wall now token email db e) wf
  | inr (a, e) ↦
      Wf-Link db (tables_of (request_link c wall now token email db)) password_reset now a.user_id
        (wall + 3600) (c.sha256 token) (request_link-Link c wall now token email db a e) wf
]

pub resend_verification-Wf :
    (c : Crypto) (wall now : ℕ) (token email : Text) (ip : Option Text) (db : AuthDb)
    → Wf db
    → Wf (tables_of (resend_verification c wall now token email ip db))
unfolding resend_verification
resend_verification-Wf c wall now token email ip db wf =
    Wf-limited _ wall (lower email) (codes "verification_resend") ip
      (resend_link c wall now token email) db wf (resend_link-Wf c wall now token email db wf)

pub request_password_reset-Wf :
    (c : Crypto) (wall now : ℕ) (token email : Text) (ip : Option Text) (db : AuthDb)
    → Wf db
    → Wf (tables_of (request_password_reset c wall now token email ip db))
unfolding request_password_reset
request_password_reset-Wf c wall now token email ip db wf =
    Wf-limited _ wall (lower email) (codes "password_reset") ip
      (request_link c wall now token email) db wf (request_link-Wf c wall now token email db wf)
