-- ===== src/Auth/Registrations.antt =====
-- Registering: the new account, the promise of the tables, and the first login.
use genjishimada.Base.{
  ℕ, ◌+◌, ◌*◌, ◌≡◌, ◌⊎◌, true, false, Option, none, some, ◌∷◌, arith, Option-cases, inl, inr,
}
use genjishimada.Base.Dict.{insert, contains, lookup-insert_self}
use genjishimada.Base.Lists.{any}
use genjishimada.Base.Text.{Text, lower, codes}
use genjishimada.Auth.Tables.{verification, AuthDb}
use genjishimada.Auth.Action.{tables_of, transaction}
use genjishimada.Auth.Validation.{is_email, validate_email}
use genjishimada.Auth.Repository.{
  has_email, belongs_to, new_user, new_email_auth, new_email_token, record_attempt,
  generate_next_user_id, create_core_user, create_email_auth, insert_email_token,
}
use genjishimada.Auth.Service.{
  Crypto, AuthUserPublic, EmailEvent, EmailRegisterRequest, create_account, register_user, register,
}
use genjishimada.Auth.Rows.{AuthRows-insert, TokenRows-insert, OneLive-new, none_live_unknown}
use genjishimada.Auth.Invariant.{Wf, Same, Wf-Same, Wf-limited, Wf-parts}

-- What a new account adds to the tables.
abbrev pub Created : AuthDb → AuthDb → EmailRegisterRequest → Text → Text → ℕ → Type 0
Created db db' r password_hash token_hash expires_at =
    (db'.users ≡ insert db.next_user_id (new_user r.username) db.users)
    × (db'.email_auth ≡ new_email_auth db.next_user_id r.email password_hash ∷ db.email_auth)
    × (db'.email_tokens
        ≡ new_email_token db.next_user_id token_hash verification expires_at ∷ db.email_tokens)
    × (contains db.next_user_id db.users ≡ false)
    × (any (has_email r.email) db.email_auth ≡ false)
    × (any (belongs_to db.next_user_id) db.email_auth ≡ false)

Wf-Created :
    (db db' : AuthDb) (r : EmailRegisterRequest) (password_hash token_hash : Text) (expires_at : ℕ)
    → Created db db' r password_hash token_hash expires_at
    → is_email r.email ≡ true
    → Wf db
    → Wf db'
Wf-Created db db' r password_hash token_hash expires_at (e1, e2, e3, unknown, new_email, new_id)
      valid wf =
    let u = db.next_user_id in
    let users = insert u (new_user r.username) db.users in
    let known : contains u users ≡ true =
      ground (arith, lookup-insert_self u (new_user r.username) db.users) in
    Wf-parts users db'.users (new_email_auth u r.email password_hash ∷ db.email_auth) db'.email_auth
      (new_email_token u token_hash verification expires_at ∷ db.email_tokens) db'.email_tokens e1
      e2 e3
      (
        (
          new_email,
          new_id,
          valid,
          known,
          AuthRows-insert u (new_user r.username) db.users db.email_auth wf.0,
        ),
        (known, TokenRows-insert u (new_user r.username) db.users db.email_tokens wf.1),
        OneLive-new u token_hash verification expires_at db.email_tokens wf.2
            (none_live_unknown u verification db.users db.email_tokens wf.1 unknown),
      )

create_account-cases :
    (c : Crypto) (wall now : ℕ) (r : EmailRegisterRequest) (password_hash token : Text)
    (db : AuthDb)
    → Created db
        (tables_of (transaction (create_account c wall now r password_hash token) db))
        r
        password_hash
        (c.sha256 token)
        (wall + 24 * 3600)
      ⊎ Same db (tables_of (transaction (create_account c wall now r password_hash token) db))
unfolding create_account generate_next_user_id create_core_user create_email_auth insert_email_token
create_account-cases c wall now r password_hash token db = ground arith

register_user-unhashed :
    (c : Crypto) (wall now : ℕ) (salt token : Text) (r : EmailRegisterRequest) (db : AuthDb)
    → c.hashpw r.password salt ≡ none
    → Same db (tables_of (register_user c wall now salt token r db))
unfolding register_user record_attempt
register_user-unhashed c wall now salt token r db unhashed = ground arith

register_user-cases :
    (c : Crypto) (wall now : ℕ) (salt token h : Text) (r : EmailRegisterRequest) (db : AuthDb)
    → c.hashpw r.password salt ≡ some h
    → (Created db
          (tables_of (register_user c wall now salt token r db))
          r
          h
          (c.sha256 token)
          (wall + 24 * 3600)
        × (is_email r.email ≡ true))
      ⊎ Same db (tables_of (register_user c wall now salt token r db))
unfolding register_user record_attempt validate_email
register_user-cases c wall now salt token h r db hashed =
    ground (arith, create_account-cases c wall now r h token db)

register_user-Wf :
    (c : Crypto) (wall now : ℕ) (salt token : Text) (r : EmailRegisterRequest) (db : AuthDb)
    → Wf db
    → Wf (tables_of (register_user c wall now salt token r db))
register_user-Wf c wall now salt token r db wf =
    let end = tables_of (register_user c wall now salt token r db) in
    elim (Option-cases (c.hashpw r.password salt)) [
      | inl unhashed ↦
          Wf-Same db end (register_user-unhashed c wall now salt token r db unhashed) wf
      | inr (h, hashed) ↦ elim (register_user-cases c wall now salt token h r db hashed) [
        | inl (created, valid) ↦
            Wf-Created db end r h (c.sha256 token) (wall + 24 * 3600) created valid wf
        | inr same ↦ Wf-Same db end same wf
      ]
    ]

pub register-Wf :
    (c : Crypto) (wall now : ℕ) (salt token : Text) (r : EmailRegisterRequest) (ip : Option Text)
    (db : AuthDb)
    → Wf db
    → Wf (tables_of (register c wall now salt token r ip db))
unfolding register
register-Wf c wall now salt token r ip db wf =
    Wf-limited (AuthUserPublic × EmailEvent) wall (lower r.email) (codes "register") ip
      (register_user c wall now salt token r) db wf (register_user-Wf c wall now salt token r db wf)
