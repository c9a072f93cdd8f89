-- ===== src/Auth/Promises.antt =====
-- The promise of the tables of the accounts through a verification, a reset and a registration,
-- and so through every sequence of requests.
use genjishimada.Base.{
  ℕ, ◌≡◌, refl, ◌⊎◌, Bool, true, false, Option, none, some, arith, Option-cases, inl, inr,
  if◌then◌else◌, is_some, ltb,
}
use genjishimada.Base.Rows.{update_where}
use genjishimada.Base.Text.{Text}
use genjishimada.Auth.Tables.{verification, password_reset, AuthDb}
use genjishimada.Auth.Action.{Outcome, tables_of}
use genjishimada.Auth.Repository.{
  TokenData, belongs_to, is_live, used, set_password, set_verified, has_token_hash,
  get_token_with_user, mark_token_used, mark_email_verified, invalidate_user_tokens,
  update_password, revoke_remember_tokens,
}
use genjishimada.Auth.Service.{Crypto, AuthUserVerify, verify_email, confirm_password_reset}
use genjishimada.Auth.Rows.{AuthRows-update, TokenRows-used, OneLive-used}
use genjishimada.Auth.Resets.{after_reset}
use genjishimada.Auth.Verifications.{after_verification, verify_email_lem}
use genjishimada.Auth.Verifications.{verification_of}
use genjishimada.Auth.Invariant.{Wf, Wf-of}

after_verification-Wf :
    (now : ℕ) (g : Text) (u : ℕ) (db : AuthDb) → Wf db → Wf (after_verification now g u db)
unfolding mark_token_used mark_email_verified invalidate_user_tokens
after_verification-Wf now g u db wf =
    let tokens = update_where (has_token_hash g) (used now) db.email_tokens in
    (
      AuthRows-update db.users (belongs_to u) (set_verified now) db.email_auth (λ row. refl)
          (λ row. refl) wf.0,
      TokenRows-used db.users (is_live u verification) now tokens
          (TokenRows-used db.users (has_token_hash g) now db.email_tokens wf.1),
      OneLive-used (is_live u verification) now tokens
          (OneLive-used (has_token_hash g) now db.email_tokens wf.2),
    )

after_reset-Wf :
    (now : ℕ) (g : Text) (u : ℕ) (h : Text) (db : AuthDb) → Wf db → Wf (after_reset now g u h db)
unfolding mark_token_used update_password invalidate_user_tokens revoke_remember_tokens
after_reset-Wf now g u h db wf =
    let tokens = update_where (has_token_hash g) (used now) db.email_tokens in
    (
      AuthRows-update db.users (belongs_to u) (set_password h) db.email_auth (λ row. refl)
          (λ row. refl) wf.0,
      TokenRows-used db.users (is_live u password_reset) now tokens
          (TokenRows-used db.users (has_token_hash g) now db.email_tokens wf.1),
      OneLive-used (is_live u password_reset) now tokens
          (OneLive-used (has_token_hash g) now db.email_tokens wf.2),
    )

Wf-if :
    (A : Type 0) (b : Bool) (o o' : Outcome A)
    → Wf (tables_of o)
    → Wf (tables_of o')
    → Wf (tables_of (if b then o else o'))
Wf-if A true o o' h h' = h
Wf-if A false o o' h h' = h'

verification_of-Wf :
    (c : Crypto) (wall now : ℕ) (token : Text) (db : AuthDb) (o : Option TokenData)
    → Wf db
    → Wf (tables_of (verification_of c wall now token db o))
verification_of-Wf c wall now token db none wf = wf
verification_of-Wf c wall now token db (some t) wf =
    Wf-if AuthUserVerify (is_some t.used_at) _ _ wf (
      Wf-if AuthUserVerify (ltb t.expires_at wall) _ _ wf (
        Wf-if AuthUserVerify (is_some t.account.email_verified_at) _ _ wf
          (after_verification-Wf now (c.sha256 token) t.account.user_id db wf)))

pub verify_email-Wf :
    (c : Crypto) (wall now : ℕ) (token : Text) (db : AuthDb)
    → Wf db
    → Wf (tables_of (verify_email c wall now token db))
verify_email-Wf c wall now token db wf =
    let found = get_token_with_user (c.sha256 token) verification db in
    Wf-of AuthUserVerify (verify_email c wall now token db)
      (verification_of c wall now token db found) (verify_email_lem c wall now token db)
      (verification_of-Wf c wall now token db found wf)

confirm_refused :
    (c : Crypto) (wall now : ℕ) (salt token password : Text) (db : AuthDb)
    → (get_token_with_user (c.sha256 token) password_reset db ≡ none)
      ⊎ (c.hashpw password salt ≡ none)
    → tables_of (confirm_password_reset c wall now salt token password db) ≡ db
unfolding confirm_password_reset
confirm_refused c wall now salt token password db (inl e) = ground arith
confirm_refused c wall now salt token password db (inr e) =
    elim (Option-cases (get_token_with_user (c.sha256 token) password_reset db)) [
      | inl missing ↦ ground arith
      | inr (t, found) ↦ ground arith
    ]

confirm_tables :
    (c : Crypto) (wall now : ℕ) (salt token password : Text) (db : AuthDb) (t : TokenData)
    (h : Text)
    → get_token_with_user (c.sha256 token) password_reset db ≡ some t
    → c.hashpw password salt ≡ some h
    → (tables_of (confirm_password_reset c wall now salt token password db) ≡ db)
      ⊎ (tables_of (confirm_password_reset c wall now salt token password db)
          ≡ after_reset now (c.sha256 token) t.account.user_id h db)
unfolding confirm_password_reset revoke_remember_tokens
confirm_tables c wall now salt token password db t h found hashed = ground arith

Wf-either : (db db1 db2 : AuthDb) → (db ≡ db1) ⊎ (db ≡ db2) → Wf db1 → Wf db2 → Wf db
Wf-either db db1 db2 (inl e) h1 h2 = rw e h1
Wf-either db db1 db2 (inr e) h1 h2 = rw e h2

pub confirm_password_reset-Wf :
    (c : Crypto) (wall now : ℕ) (salt token password : Text) (db : AuthDb)
    → Wf db
    → Wf (tables_of (confirm_password_reset c wall now salt token password db))
confirm_password_reset-Wf c wall now salt token password db wf =
    let end = tables_of (confirm_password_reset c wall now salt token password db) in
    elim (Option-cases (get_token_with_user (c.sha256 token) password_reset db)) [
      | inl missing ↦
          let same = confirm_refused c wall now salt token password db (inl missing) in
          Wf-either end db db (inl same) wf wf
      | inr (t, found) ↦ elim (Option-cases (c.hashpw password salt)) [
        | inl unhashed ↦
            let same = confirm_refused c wall now salt token password db (inr unhashed) in
            Wf-either end db db (inl same) wf wf
        | inr (h, hashed) ↦
            Wf-either end db (after_reset now (c.sha256 token) t.account.user_id h db)
              (confirm_tables c wall now salt token password db t h found hashed) wf
              (after_reset-Wf now (c.sha256 token) t.account.user_id h db wf)
      ]
    ]
