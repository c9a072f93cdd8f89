-- ===== src/Auth/Tables.antt =====
-- The tables of apps/api/migrations/0004_email_auth.sql and 0006_refresh_tokens.sql, with the
-- columns of core.users that the accounts use. Times are seconds of the clock.
use genjishimada.Base.{ℕ, Bool, Option, List}
use genjishimada.Base.Dict.{Dict}
use genjishimada.Base.Int.{ℤ}
use genjishimada.Base.Text.{Text}

pub record User : Type 0 where
  pub nickname : Text
  pub coins : ℤ
  pub is_mod : Bool

pub record EmailAuth : Type 0 where
  pub user_id : ℕ
  pub email : Text
  pub password_hash : Text
  pub email_verified_at : Option ℕ

pub data TokenType : Type 0 where
  verification : TokenType
  password_reset : TokenType

pub record EmailToken : Type 0 where
  pub user_id : ℕ
  pub token_hash : Text
  pub token_type : TokenType
  pub expires_at : ℕ
  pub used_at : Option ℕ

pub record Attempt : Type 0 where
  pub identifier : Text
  pub action : Text
  pub attempt_at : ℕ
  pub success : Bool

pub record Session : Type 0 where
  pub id : Text
  pub user_id : Option ℕ
  pub payload : Text
  pub last_activity : ℕ
  pub ip_address : Option Text
  pub user_agent : Option Text

pub record RememberToken : Type 0 where
  pub user_id : ℕ
  pub token_hash : Text
  pub expires_at : ℕ
  pub last_used_at : Option ℕ
  pub ip_address : Option Text
  pub user_agent : Option Text

-- `next_user_id` is the next value of the sequence users.email_user_id_seq.
pub record AuthDb : Type 0 where
  pub users : Dict User
  pub email_auth : List EmailAuth
  pub email_tokens : List EmailToken
  pub rate_limits : List Attempt
  pub sessions : List Session
  pub remember_tokens : List RememberToken
  pub next_user_id : ℕ
