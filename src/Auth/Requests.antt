-- ===== src/Auth/Requests.antt =====
-- Asking for a password reset: the link that is sent, and the earlier ones.
use genjishimada.Base.{
  ℕ, ◌+◌, ◌≡◌, ◌≢◌, refl, ◌≤◌, true, false, Option, none, some, List, [], ◌∷◌, arith, Option-cases,
  inl, inr, is_some,
}
use mathlib.Core.Option
use genjishimada.Base.Dict.{Dict}
use genjishimada.Base.Rows.{find_map}
use genjishimada.Base.Text.{Text, lower, codes, text_eq, text_eq_refl, text_eq_iff}
use genjishimada.Auth.Tables.{User, EmailAuth, TokenType, password_reset, AuthDb}
use genjishimada.Auth.Action.{returned, raised, ok, token_already_used}
use genjishimada.Auth.Validation.{validate_password}
use genjishimada.Auth.Repository.{
  Account, TokenData, account_of, account_of_user, account_for, get_user_by_email,
  get_token_with_user, new_email_token, record_attempt, invalidate_user_tokens, insert_email_token,
  revoke_remember_tokens,
}
use genjishimada.Auth.Service.{
  Crypto, AuthUserVerify, EmailEvent, replace_token, request_link, request_password_reset,
  confirm_password_reset, verified_user,
}
use genjishimada.Auth.Attempts.{limited}
use genjishimada.Auth.Found.{
  account_of-user_id, after_invalidation, get_token_with_user-invalidate_user_tokens,
}
use genjishimada.Auth.Resets.{after_reset, used_token_refused}

-- The tables after a request for a link, without its attempt.
abbrev pub after_link : ℕ → ℕ → TokenType → Text → ℕ → AuthDb → AuthDb
after_link now u k h expires_at db = record (invalidate_user_tokens now u k db) {
  email_tokens =
      new_email_token u h k expires_at ∷ (invalidate_user_tokens now u k db).email_tokens;
}

-- What a request that sends a link has found and done.
abbrev pub Requested : Crypto → ℕ → ℕ → Text → Text → EmailEvent → AuthDb → AuthDb → Type 0
Requested c wall now token email e db db' =
    (a : Account) × (get_user_by_email email db ≡ some a)
    × (e.token ≡ token)
    × (db'
        ≡ record_attempt now (lower email) (codes "password_reset") true
            (after_link now a.user_id password_reset (c.sha256 token) (wall + 3600) db))

link_sent :
    (c : Crypto) (wall now : ℕ) (token email : Text) (e : EmailEvent) (db db' : AuthDb)
    (a : Account)
    → get_user_by_email email db ≡ some a
    → request_link c wall now token email db ≡ returned (some e) db'
    → (e.token ≡ token)
      × (db'
          ≡ record_attempt now
              (lower email)
              (codes "password_reset")
              true
              (after_link now a.user_id password_reset (c.sha256 token) (wall + 3600) db))
unfolding request_link replace_token insert_email_token
link_sent c wall now token email e db db' a found done = ground arith

no_link_sent :
    (c : Crypto) (wall now : ℕ) (token email : Text) (e : EmailEvent) (db db' : AuthDb)
    → get_user_by_email email db ≡ none
    → ¬ (request_link c wall now token email db ≡ returned (some e) db')
unfolding request_link
no_link_sent c wall now token email e db db' missing done = ground arith

request-Requested :
    (c : Crypto) (wall now : ℕ) (token email : Text) (ip : Option Text) (e : EmailEvent)
    (db db' : AuthDb)
    → request_password_reset c wall now token email ip db ≡ returned (some e) db'
    → Requested c wall now token email e db db'
unfolding request_password_reset
request-Requested c wall now token email ip e db db' done =
    let passed : request_link c wall now token email db ≡ returned (some e) db' = ground (
      arith,
      limited wall (lower email) (codes "password_reset") ip (request_link c wall now token email)
          db,
    ) in
    elim (Option-cases (get_user_by_email email db)) [
      | inl missing ↦ absurd (no_link_sent c wall now token email e db db' missing passed)
      | inr (a, found) ↦
          let (sent, tables) = link_sent c wall now token email e db db' a found passed in
          (a, found, sent, tables)
    ]

account_found :
    (users : Dict User) (email : Text) (rows : List EmailAuth) (a : Account)
    → find_map (account_for users email) rows ≡ some a
    → is_some (find_map (account_of_user users a.user_id) rows) ≡ true
account_found users email [] a found = absurd (ground arith)
account_found users email (row ∷ rows) a found = ground (arith, account_found users email rows a)

account_of_email :
    (email : Text) (db : AuthDb) (a : Account)
    → get_user_by_email email db ≡ some a
    → (b : Account) × (account_of db a.user_id ≡ some b) × (b.user_id ≡ a.user_id)
unfolding get_user_by_email
account_of_email email db a found = elim (Option-cases (account_of db a.user_id)) [
  | inl missing ↦ absurd (ground (arith, account_found db.users email db.email_auth a found))
  | inr (b, e) ↦ (b, e, account_of-user_id db a.user_id b e)
]

sent_token :
    (now u expires_at : ℕ) (k : TokenType) (h identifier action : Text) (b : Account) (db : AuthDb)
    → account_of db u ≡ some b
    → get_token_with_user h k
        (record_attempt now identifier action true (after_link now u k h expires_at db))
      ≡ some (record { expires_at = expires_at; used_at = none; account = b })
unfolding get_token_with_user record_attempt invalidate_user_tokens
sent_token now u expires_at k h identifier action b db e = ground (arith, text_eq_refl h)

older_token :
    (now u expires_at : ℕ) (k : TokenType) (h g identifier action : Text) (db : AuthDb)
    → text_eq h g ≡ false
    → get_token_with_user g k
        (record_attempt now identifier action true (after_link now u k h expires_at db))
      ≡ Option.map (after_invalidation now u k k) (get_token_with_user g k db)
unfolding get_token_with_user record_attempt
older_token now u expires_at k h g identifier action db apart =
    rw apart (get_token_with_user-invalidate_user_tokens now u g k k db)

confirm_known :
    (c : Crypto) (wall now : ℕ) (salt token password : Text) (db : AuthDb) (t : TokenData)
    (h : Text)
    → get_token_with_user (c.sha256 token) password_reset db ≡ some t
    → is_some t.used_at ≡ false
    → wall ≤ t.expires_at
    → validate_password password ≡ ok tt
    → c.hashpw password salt ≡ some h
    → confirm_password_reset c wall now salt token password db
      ≡ returned
          (verified_user t.account (is_some t.account.email_verified_at))
          (after_reset now (c.sha256 token) t.account.user_id h db)
unfolding confirm_password_reset revoke_remember_tokens
confirm_known c wall now salt token password db t h found unused in_time valid hashed = ground arith

-- The link that a request sends works for an hour: within it the token, with a password that is
-- allowed and that bcrypt takes, resets the password of the user whom the email belongs to.
pub request_then_confirm :
    (c : Crypto) (wall now : ℕ) (token email : Text) (ip : Option Text) (e : EmailEvent)
    (db db' : AuthDb) (wall' now' : ℕ) (salt password h : Text) (a : Account)
    → request_password_reset c wall now token email ip db ≡ returned (some e) db'
    → get_user_by_email email db ≡ some a
    → wall' ≤ wall + 3600
    → validate_password password ≡ ok tt
    → c.hashpw password salt ≡ some h
    → (r : AuthUserVerify) × (confirm_password_reset c wall' now' salt e.token password db'
        ≡ returned r (after_reset now' (c.sha256 e.token) a.user_id h db'))
      × (r.id ≡ a.user_id)
request_then_confirm c wall now token email ip e db db' wall' now' salt password h a done known
      in_time valid hashed =
    let (a', found, sent, tables) = request-Requested c wall now token email ip e db db' done in
    let (b, owner, same) = account_of_email email db a' found in
    let data' : TokenData = record { expires_at = wall + 3600; used_at = none; account = b } in
    let run =
      confirm_known c wall' now' salt token password db' data' h
        (ground (
          arith,
          sent_token now a'.user_id (wall + 3600) password_reset (c.sha256 token) (lower email)
              (codes "password_reset") b db owner,
        ))
        refl in_time valid hashed in
    (verified_user b (is_some b.email_verified_at), ground (arith, run), ground arith)

-- A newer link replaces the older ones: once a reset link has been sent for an email, every reset
-- token that its user had before, with another hash than the new one, is refused with
-- TokenAlreadyUsedError at any time, whatever allowed password comes with it, and changes nothing.
pub older_links_refused :
    (c : Crypto) (wall now : ℕ) (token email : Text) (ip : Option Text) (e : EmailEvent)
    (db db' : AuthDb) (wall' now' : ℕ) (salt other password : Text) (a : Account) (t : TokenData)
    → request_password_reset c wall now token email ip db ≡ returned (some e) db'
    → get_user_by_email email db ≡ some a
    → get_token_with_user (c.sha256 other) password_reset db ≡ some t
    → t.account.user_id ≡ a.user_id
    → c.sha256 token ≢ c.sha256 other
    → validate_password password ≡ ok tt
    → confirm_password_reset c wall' now' salt other password db'
      ≡ raised (token_already_used password_reset) db'
older_links_refused c wall now token email ip e db db' wall' now' salt other password a t done known
      old same apart valid =
    let (a', found, sent, tables) = request-Requested c wall now token email ip e db db' done in
    let g = c.sha256 other in
    let u = a'.user_id in
    used_token_refused c wall' now' salt other password db'
      (after_invalidation now u password_reset password_reset t)
      (ground (
        arith,
        text_eq_iff (c.sha256 token) g,
        older_token now u (wall + 3600) password_reset (c.sha256 token) g (lower email)
            (codes "password_reset") db,
      ))
      (ground arith) valid
