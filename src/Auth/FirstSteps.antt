-- ===== src/Auth/FirstSteps.antt =====
-- A new user's first steps: the account that a registration makes, the first login and the
-- verification of the email.
use genjishimada.Base.{
  ℕ, suc, ◌+◌, ◌*◌, ◌≡◌, ◌≤◌, true, false, Option, none, some, ◌∷◌, arith, Option-cases, inl, inr,
}
use genjishimada.Base.Dict.{insert, lookup-insert_self}
use genjishimada.Base.Int.{pos}
use genjishimada.Base.Text.{Text, lower, codes, text_eq_refl, text_eq_iff}
use genjishimada.Auth.Tables.{verification, AuthDb}
use genjishimada.Auth.Action.{returned}
use genjishimada.Auth.Limits.{check_rate_limit, check_client_ip}
use genjishimada.Auth.Repository.{
  Account, account_row, new_user, new_email_auth, new_email_token, record_attempt,
  get_user_by_email, get_token_with_user, generate_next_user_id, create_core_user,
  create_email_auth, insert_email_token,
}
use genjishimada.Auth.Service.{
  Crypto, AuthUserPublic, AuthUserResponse, EmailEvent, EmailRegisterRequest, EmailLoginRequest,
  create_account, register_user, register, login, verify_email,
}
use genjishimada.Auth.Attempts.{limited}
use genjishimada.Auth.Resets.{login_known}
use genjishimada.Auth.Verifications.{after_verification, verify_email_lem}

-- The tables after a registration.
abbrev pub after_registration :
    Crypto → ℕ → ℕ → Text → EmailRegisterRequest → Text → AuthDb → AuthDb
after_registration c wall now token r h db =
    record_attempt now (lower r.email) (codes "register") true (record db {
      users = insert db.next_user_id (new_user r.username) db.users;
      email_auth = new_email_auth db.next_user_id r.email h ∷ db.email_auth;
      email_tokens =
          new_email_token db.next_user_id (c.sha256 token) verification (wall + 24 * 3600)
          ∷ db.email_tokens;
      next_user_id = suc db.next_user_id;
    })

-- The account that a registration makes.
abbrev pub new_account : EmailRegisterRequest → Text → ℕ → Account
new_account r h u = account_row (new_email_auth u r.email h) (new_user r.username)

registered_user :
    (c : Crypto) (wall now : ℕ) (salt token h : Text) (r : EmailRegisterRequest) (db db' : AuthDb)
    (p : AuthUserPublic) (e : EmailEvent)
    → c.hashpw r.password salt ≡ some h
    → register_user c wall now salt token r db ≡ returned (p, e) db'
    → (p.id ≡ db.next_user_id)
      × (e.token ≡ token)
      × (db' ≡ after_registration c wall now token r h db)
unfolding register_user create_account generate_next_user_id create_core_user create_email_auth
    insert_email_token
registered_user c wall now salt token h r db db' p e hashed done = ground arith

unhashed_refused :
    (c : Crypto) (wall now : ℕ) (salt token : Text) (r : EmailRegisterRequest) (db db' : AuthDb)
    (p : AuthUserPublic) (e : EmailEvent)
    → c.hashpw r.password salt ≡ none
    → ¬ (register_user c wall now salt token r db ≡ returned (p, e) db')
unfolding register_user
unhashed_refused c wall now salt token r db db' p e unhashed done = ground arith

-- What a registration that succeeds has done.
abbrev pub Registered :
    Crypto
    → ℕ
    → ℕ
    → Text
    → Text
    → EmailRegisterRequest
    → AuthUserPublic
    → EmailEvent
    → AuthDb
    → AuthDb
    → Type 0
Registered c wall now salt token r p e db db' =
    (h : Text) × (c.hashpw r.password salt ≡ some h)
    × (p.id ≡ db.next_user_id)
    × (e.token ≡ token)
    × (db' ≡ after_registration c wall now token r h db)

register_passed :
    (c : Crypto) (wall now : ℕ) (salt token : Text) (r : EmailRegisterRequest) (ip : Option Text)
    (db db' : AuthDb) (p : AuthUserPublic) (e : EmailEvent)
    → register c wall now salt token r ip db ≡ returned (p, e) db'
    → register_user c wall now salt token r db ≡ returned (p, e) db'
unfolding register
register_passed c wall now salt token r ip db db' p e done =
    elim (limited wall (lower r.email) (codes "register") ip (register_user c wall now salt token r)
      db) [ inl refused ↦ absurd (ground arith) | inr (_, run) ↦ ground (arith, run) ]

register-Registered :
    (c : Crypto) (wall now : ℕ) (salt token : Text) (r : EmailRegisterRequest) (ip : Option Text)
    (db db' : AuthDb) (p : AuthUserPublic) (e : EmailEvent)
    → register c wall now salt token r ip db ≡ returned (p, e) db'
    → Registered c wall now salt token r p e db db'
register-Registered c wall now salt token r ip db db' p e done =
    let inner = register_passed c wall now salt token r ip db db' p e done in
    elim (Option-cases (c.hashpw r.password salt)) [
      | inl unhashed ↦ absurd (unhashed_refused c wall now salt token r db db' p e unhashed inner)
      | inr (h, hashed) ↦
          let (id, sent, tables) =
            registered_user c wall now salt token h r db db' p e hashed inner in
          (h, hashed, id, sent, tables)
    ]

registered_account :
    (c : Crypto) (wall now : ℕ) (token h email : Text) (r : EmailRegisterRequest) (db : AuthDb)
    → lower email ≡ lower r.email
    → get_user_by_email email (after_registration c wall now token r h db)
      ≡ some (new_account r h db.next_user_id)
unfolding get_user_by_email record_attempt
registered_account c wall now token h email r db same = ground (
  arith,
  text_eq_iff (lower r.email) (lower email),
  lookup-insert_self db.next_user_id (new_user r.username) db.users,
)

registered_token :
    (c : Crypto) (wall now : ℕ) (token h : Text) (r : EmailRegisterRequest) (db : AuthDb)
    → get_token_with_user (c.sha256 token) verification (after_registration c wall now token r h db)
      ≡ some (record {
        expires_at = wall + 24 * 3600;
        used_at = none;
        account = new_account r h db.next_user_id;
      })
unfolding get_token_with_user record_attempt
registered_token c wall now token h r db = ground (
  arith,
  text_eq_refl (c.sha256 token),
  lookup-insert_self db.next_user_id (new_user r.username) db.users,
)

-- The response to the first login of a user.
abbrev pub first_login : EmailRegisterRequest → ℕ → AuthUserResponse
first_login r u = record {
  id = u;
  email = r.email;
  username = r.username;
  email_verified = false;
  coins = pos 0;
  is_mod = false;
}

-- Who has registered can log in at once with the email, in any case, and the password, from
-- any client address, if the numbers of attempts for the email and for the address allow it: the answer is the new user with the name and the email as they
-- were typed, unverified, without coins and no moderator. bcrypt accepts a password for the hash
-- that it made of it.
pub register_then_login :
    (c : Crypto) (wall now : ℕ) (salt token : Text) (r : EmailRegisterRequest) (ip : Option Text)
    (db db' : AuthDb) (p : AuthUserPublic) (e : EmailEvent) (wall' now' : ℕ)
    (request : EmailLoginRequest) (ip' : Option Text)
    → ((p s h : Text) → c.hashpw p s ≡ some h → c.checkpw p h ≡ some true)
    → register c wall now salt token r ip db ≡ returned (p, e) db'
    → lower request.email ≡ lower r.email
    → request.password ≡ r.password
    → check_rate_limit wall' (lower request.email) (codes "login") db' ≡ returned tt db'
    → check_client_ip wall' ip' (codes "login") db' ≡ returned tt db'
    → login c wall' now' request ip' db'
      ≡ returned
          (first_login r p.id)
          (record_attempt now' (lower request.email) (codes "login") true db')
register_then_login c wall now salt token r ip db db' p e wall' now' request ip' accepts done
      same_email same_password below below_ip =
    let (h, hashed, id, _, tables) =
      register-Registered c wall now salt token r ip db db' p e done in
    let run =
      login_known c wall' now' request ip' db' (new_account r h db.next_user_id) below below_ip
        (ground (arith, registered_account c wall now token h request.email r db same_email))
        (ground (arith, accepts r.password salt h hashed)) in
    ground (arith, run)

-- The link of a registration works for a day: within it the token verifies the email of the new
-- user.
pub register_then_verify :
    (c : Crypto) (wall now : ℕ) (salt token : Text) (r : EmailRegisterRequest) (ip : Option Text)
    (db db' : AuthDb) (p : AuthUserPublic) (e : EmailEvent) (wall' now' : ℕ)
    → register c wall now salt token r ip db ≡ returned (p, e) db'
    → wall' ≤ wall + 24 * 3600
    → verify_email c wall' now' e.token db'
      ≡ returned
          (record {
            id = p.id;
            email = r.email;
            username = r.username;
            email_verified = true;
            is_mod = false;
          })
          (after_verification now' (c.sha256 e.token) p.id db')
register_then_verify c wall now salt token r ip db db' p e wall' now' done in_time =
    let (h, _, id, sent, tables) = register-Registered c wall now salt token r ip db db' p e done in
    ground
      (arith, verify_email_lem c wall' now' token db', registered_token c wall now token h r db)
