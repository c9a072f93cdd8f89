-- ===== src/Auth/Resets.antt =====
-- Resetting a password: what a confirmed reset leaves of tokens, passwords and remembered logins.
use genjishimada.Base.{
  ℕ, ◌≡◌, ◌≤◌, true, false, Option, none, some, is_some, arith, Option-cases, inl, inr,
}
use mathlib.Core.Option
use genjishimada.Base.Lists.{find?}
use genjishimada.Base.Rows.{find?-delete_where}
use genjishimada.Base.Text.{Text, lower, codes, text_eq}
use genjishimada.Auth.Tables.{password_reset, RememberToken, AuthDb}
use genjishimada.Auth.Action.{ok, returned, raised, tables_of, token_already_used}
use genjishimada.Auth.Validation.{validate_password}
use genjishimada.Auth.Limits.{check_rate_limit, check_client_ip}
use genjishimada.Auth.Repository.{
  Account, TokenData, get_token_with_user, mark_token_used, invalidate_user_tokens, update_password,
  revoke_remember_tokens, of_user, get_user_by_email, record_attempt,
}
use genjishimada.Auth.SessionRepository
use genjishimada.Auth.SessionRepository.{is_valid}
use genjishimada.Auth.SessionService.{validate_remember_token}
use genjishimada.Auth.Service.{
  Crypto, AuthUserVerify, EmailLoginRequest, confirm_password_reset, verified_user, login,
  login_user, login_response,
}
use genjishimada.Auth.Found.{
  with_password, on_account, use_token, after_invalidation, get_user_by_email-update_password,
  get_token_with_user-update_password, get_token_with_user-mark_token_used,
  get_token_with_user-invalidate_user_tokens,
}

-- The tables after a reset with the token of hash `g`, to the password of hash `h`.
abbrev pub after_reset : ℕ → Text → ℕ → Text → AuthDb → AuthDb
after_reset now g u h db = tables_of (
    revoke_remember_tokens u (
      invalidate_user_tokens now u password_reset (update_password u h (mark_token_used now g db))))

-- What a confirmed reset has found and done.
abbrev pub Reset : Crypto → ℕ → ℕ → Text → Text → Text → AuthDb → AuthUserVerify → AuthDb → Type 0
Reset crypto wall now salt token password db r db' =
    (t : TokenData) × (h : Text) × (get_token_with_user (crypto.sha256 token) password_reset db
      ≡ some t)
    × (is_some t.used_at ≡ false)
    × (wall ≤ t.expires_at)
    × (validate_password password ≡ ok tt)
    × (crypto.hashpw password salt ≡ some h)
    × (r ≡ verified_user t.account (is_some t.account.email_verified_at))
    × (db' ≡ after_reset now (crypto.sha256 token) t.account.user_id h db)

confirm_needs_token :
    (crypto : Crypto) (wall now : ℕ) (salt token password : Text) (db db' : AuthDb)
    (r : AuthUserVerify)
    → get_token_with_user (crypto.sha256 token) password_reset db ≡ none
    → ¬ (confirm_password_reset crypto wall now salt token password db ≡ returned r db')
unfolding confirm_password_reset
confirm_needs_token crypto wall now salt token password db db' r missing h = ground arith

confirm_needs_hash :
    (crypto : Crypto) (wall now : ℕ) (salt token password : Text) (db db' : AuthDb)
    (r : AuthUserVerify) (t : TokenData)
    → get_token_with_user (crypto.sha256 token) password_reset db ≡ some t
    → crypto.hashpw password salt ≡ none
    → ¬ (confirm_password_reset crypto wall now salt token password db ≡ returned r db')
unfolding confirm_password_reset
confirm_needs_hash crypto wall now salt token password db db' r t found unhashed h = ground arith

confirm_parts :
    (crypto : Crypto) (wall now : ℕ) (salt token password : Text) (db db' : AuthDb)
    (r : AuthUserVerify) (t : TokenData) (h : Text)
    → get_token_with_user (crypto.sha256 token) password_reset db ≡ some t
    → crypto.hashpw password salt ≡ some h
    → confirm_password_reset crypto wall now salt token password db ≡ returned r db'
    → (is_some t.used_at ≡ false)
      × (wall ≤ t.expires_at)
      × (validate_password password ≡ ok tt)
      × (r ≡ verified_user t.account (is_some t.account.email_verified_at))
      × (db' ≡ after_reset now (crypto.sha256 token) t.account.user_id h db)
unfolding confirm_password_reset
confirm_parts crypto wall now salt token password db db' r t h found hashed done = ground arith

pub confirm_password_reset_sound :
    (crypto : Crypto) (wall now : ℕ) (salt token password : Text) (db db' : AuthDb)
    (r : AuthUserVerify)
    → confirm_password_reset crypto wall now salt token password db ≡ returned r db'
    → Reset crypto wall now salt token password db r db'
confirm_password_reset_sound crypto wall now salt token password db db' r done =
    elim (Option-cases (get_token_with_user (crypto.sha256 token) password_reset db)) [
      | inl missing ↦
          absurd (confirm_needs_token crypto wall now salt token password db db' r missing done)
      | inr (t, found) ↦ elim (Option-cases (crypto.hashpw password salt)) [
        | inl unhashed ↦
            absurd (
              confirm_needs_hash crypto wall now salt token password db db' r t found unhashed done)
        | inr (h, hashed) ↦
            let (unused, fresh, valid, response, tables) =
              confirm_parts crypto wall now salt token password db db' r t h found hashed done in
            (t, h, found, unused, fresh, valid, hashed, response, tables)
      ]
    ]

-- What a query for a reset token finds after a reset.
abbrev pub token_after_reset : ℕ → Text → ℕ → Text → Text → TokenData → TokenData
token_after_reset now g u h k t =
    after_invalidation now u password_reset password_reset
      (on_account (with_password u h) (use_token (text_eq k g) now t))

get_token_with_user-after_reset :
    (now u : ℕ) (g h k : Text) (db : AuthDb)
    → get_token_with_user k password_reset (after_reset now g u h db)
      ≡ Option.map (token_after_reset now g u h k) (get_token_with_user k password_reset db)
unfolding revoke_remember_tokens get_token_with_user
get_token_with_user-after_reset now u g h k db = ground (
  arith,
  get_token_with_user-mark_token_used now g k password_reset db,
  get_token_with_user-update_password u h k password_reset (mark_token_used now g db),
  get_token_with_user-invalidate_user_tokens now u k password_reset password_reset
      (update_password u h (mark_token_used now g db)),
)

pub used_token_refused :
    (crypto : Crypto) (wall now : ℕ) (salt token password : Text) (db : AuthDb) (t : TokenData)
    → get_token_with_user (crypto.sha256 token) password_reset db ≡ some t
    → is_some t.used_at ≡ true
    → validate_password password ≡ ok tt
    → confirm_password_reset crypto wall now salt token password db
      ≡ raised (token_already_used password_reset) db
unfolding confirm_password_reset
used_token_refused crypto wall now salt token password db t found spent valid = ground arith

-- A reset spends every reset token of its user: once a reset has been confirmed, the next
-- confirmation with a password that is allowed, with the same token or with any other reset token
-- of that user, at any time, raises TokenAlreadyUsedError and changes nothing.
pub confirm_password_reset_once :
    (crypto : Crypto) (wall now : ℕ) (salt token password : Text) (db db' : AuthDb)
    (r : AuthUserVerify) (wall' now' : ℕ) (salt' other password' : Text) (t : TokenData)
    → confirm_password_reset crypto wall now salt token password db ≡ returned r db'
    → get_token_with_user (crypto.sha256 other) password_reset db ≡ some t
    → t.account.user_id ≡ r.id
    → validate_password password' ≡ ok tt
    → confirm_password_reset crypto wall' now' salt' other password' db'
      ≡ raised (token_already_used password_reset) db'
confirm_password_reset_once crypto wall now salt token password db db' r wall' now' salt' other
      password' t done found same valid =
    let (t0, h, _, _, _, _, _, response, tables) =
      confirm_password_reset_sound crypto wall now salt token password db db' r done in
    let g = crypto.sha256 token in
    let k = crypto.sha256 other in
    used_token_refused crypto wall' now' salt' other password' db'
      (token_after_reset now g t0.account.user_id h k t)
      (ground (arith, get_token_with_user-after_reset now t0.account.user_id g h k db))
      (ground arith) valid

after_reset-password :
    (now u : ℕ) (g h e : Text) (db : AuthDb)
    → get_user_by_email e (after_reset now g u h db)
      ≡ Option.map (with_password u h) (get_user_by_email e db)
unfolding revoke_remember_tokens invalidate_user_tokens mark_token_used get_user_by_email
after_reset-password now u g h e db =
    ground (arith, get_user_by_email-update_password u h e (mark_token_used now g db))

pub login_known :
    (crypto : Crypto) (wall now : ℕ) (request : EmailLoginRequest) (ip : Option Text) (db : AuthDb)
    (a : Account)
    → check_rate_limit wall (lower request.email) (codes "login") db ≡ returned tt db
    → check_client_ip wall ip (codes "login") db ≡ returned tt db
    → get_user_by_email request.email db ≡ some a
    → crypto.checkpw request.password a.password_hash ≡ some true
    → login crypto wall now request ip db
      ≡ returned
          (login_response a)
          (record_attempt now (lower request.email) (codes "login") true db)
unfolding login login_user
login_known crypto wall now request ip db a below below_ip found matches = ground arith

-- After a confirmed reset the user logs in with the new password, from any client
-- address, if the numbers of attempts for the email and for the address allow it: bcrypt accepts a password for the hash that it made of it, and the account that the
-- email had before the reset is the one that the token was for.
pub login_after_reset :
    (crypto : Crypto) (wall now : ℕ) (salt token password : Text) (db db' : AuthDb)
    (r : AuthUserVerify) (wall' now' : ℕ) (request : EmailLoginRequest) (ip : Option Text)
    (a : Account)
    → ((p s h : Text) → crypto.hashpw p s ≡ some h → crypto.checkpw p h ≡ some true)
    → confirm_password_reset crypto wall now salt token password db ≡ returned r db'
    → request.password ≡ password
    → get_user_by_email request.email db ≡ some a
    → a.user_id ≡ r.id
    → check_rate_limit wall' (lower request.email) (codes "login") db' ≡ returned tt db'
    → check_client_ip wall' ip (codes "login") db' ≡ returned tt db'
    → login crypto wall' now' request ip db'
      ≡ returned
          (login_response a)
          (record_attempt now' (lower request.email) (codes "login") true db')
login_after_reset crypto wall now salt token password db db' r wall' now' request ip a accepts done
      chosen found same below below_ip =
    let (t, h, _, _, _, _, hashed, response, tables) =
      confirm_password_reset_sound crypto wall now salt token password db db' r done in
    let u = t.account.user_id in
    let run =
      login_known crypto wall' now' request ip db' (with_password u h a) below below_ip
        (ground (arith, after_reset-password now u (crypto.sha256 token) h request.email db))
        (ground (arith, accepts password salt h hashed)) in
    ground (arith, run)

remembered_row :
    (now v : ℕ) (k : Text) (db db'' : AuthDb)
    → SessionRepository.validate_remember_token now k db ≡ returned (some v) db''
    → (x : RememberToken) × (find? (is_valid now k) db.remember_tokens ≡ some x) × (x.user_id ≡ v)
unfolding SessionRepository.validate_remember_token
remembered_row now v k db db'' done =
    elim (Option-cases (find? (is_valid now k) db.remember_tokens)) [
      | inl e ↦ absurd (ground arith)
      | inr (x, e) ↦ (x, e, ground arith)
    ]

no_remembered :
    (now' now u v : ℕ) (k g h : Text) (db db'' : AuthDb)
    → SessionRepository.validate_remember_token now' k (after_reset now g u h db)
      ≡ returned (some v) db''
    → ¬ (v ≡ u)
unfolding revoke_remember_tokens invalidate_user_tokens update_password mark_token_used
no_remembered now' now u v k g h db db'' done same =
    let (x, found, owner) = remembered_row now' v k (after_reset now g u h db) db'' done in
    ground (arith, find?-delete_where (is_valid now' k) (of_user u) db.remember_tokens x found)

-- A reset forgets every remembered login of its user: after it no remember token, at any time,
-- is valid for that user.
pub validate_remember_token_after_reset :
    (crypto : Crypto) (wall now : ℕ) (salt token password : Text) (db db' : AuthDb)
    (r : AuthUserVerify) (now' : ℕ) (other : Text) (u : ℕ) (db'' : AuthDb)
    → confirm_password_reset crypto wall now salt token password db ≡ returned r db'
    → validate_remember_token crypto now' other db' ≡ returned (some u) db''
    → ¬ (u ≡ r.id)
unfolding validate_remember_token
validate_remember_token_after_reset crypto wall now salt token password db db' r now' other u db''
      done valid =
    let (t, h, _, _, _, _, _, response, tables) =
      confirm_password_reset_sound crypto wall now salt token password db db' r done in
    ground (
      arith,
      no_remembered now' now t.account.user_id u (crypto.sha256 other) (crypto.sha256 token) h db
          db'',
    )
