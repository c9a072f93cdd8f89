-- ===== src/Auth/Repository.antt =====
-- The statements of apps/api/repository/auth_repository.py. `now` is the database's clock.
use genjishimada.Base.{
  ℕ, suc, ◌+◌, Bool, true, false, not, ◌&&◌, ◌||◌, Option, none, some, ◌∷◌, ◌==◌, ltb, is_some,
  if◌then◌else◌,
}
use genjishimada.Base.Dict.{Dict, lookup, insert, contains}
use genjishimada.Base.Lists.{any, find?}
use genjishimada.Base.Rows.{find_map, update_where, delete_where, count_where}
use genjishimada.Base.Int.{ℤ, pos}
use genjishimada.Base.Text.{Text, text_eq, lower}
use genjishimada.Auth.Tables.{
  User, EmailAuth, TokenType, verification, password_reset, EmailToken, Attempt, RememberToken,
  AuthDb,
}
use genjishimada.Auth.Action.{
  Action, unique_violation, foreign_key_violation, sequence_exhausted, pure, raise, returned,
}

abbrev pub in_window : Text → Text → ℕ → ℕ → Attempt → Bool
in_window identifier action wall window a =
    text_eq a.identifier (lower identifier)
    && text_eq a.action action
    && ltb wall (a.attempt_at + window)

-- `fetch_rate_limit_count`, the window given by its length before `wall`
unfoldable pub fetch_rate_limit_count : Text → Text → ℕ → ℕ → AuthDb → ℕ
fetch_rate_limit_count identifier action wall window db =
    count_where (in_window identifier action wall window) db.rate_limits

abbrev pub attempt : ℕ → Text → Text → Bool → Attempt
attempt now identifier action success = record {
  identifier = lower identifier;
  action = action;
  attempt_at = now;
  success = success;
}

-- `record_attempt`
unfoldable pub record_attempt : ℕ → Text → Text → Bool → AuthDb → AuthDb
record_attempt now identifier action success db = record db {
  rate_limits = attempt now identifier action success ∷ db.rate_limits;
}

abbrev pub has_email : Text → EmailAuth → Bool
has_email email row = text_eq (lower row.email) (lower email)

-- `check_email_exists`
unfoldable pub check_email_exists : Text → AuthDb → Bool
check_email_exists email db = any (has_email email) db.email_auth

-- A row of the join of users.email_auth with core.users.
pub record Account : Type 0 where
  pub user_id : ℕ
  pub email : Text
  pub password_hash : Text
  pub email_verified_at : Option ℕ
  pub nickname : Text
  pub coins : ℤ
  pub is_mod : Bool

abbrev pub account_row : EmailAuth → User → Account
account_row row user = record {
  user_id = row.user_id;
  email = row.email;
  password_hash = row.password_hash;
  email_verified_at = row.email_verified_at;
  nickname = user.nickname;
  coins = user.coins;
  is_mod = user.is_mod;
}

abbrev pub join_user : Dict User → EmailAuth → Option Account
join_user users row = elim (lookup row.user_id users) [
  | none ↦ none
  | some user ↦ some (account_row row user)
]

abbrev pub account_for : Dict User → Text → EmailAuth → Option Account
account_for users email row = if has_email email row then join_user users row else none

-- `get_user_by_email`
unfoldable pub get_user_by_email : Text → AuthDb → Option Account
get_user_by_email email db = find_map (account_for db.users email) db.email_auth

-- `generate_next_user_id`, of a sequence that ends at its MAXVALUE
unfoldable pub generate_next_user_id : Action ℕ
generate_next_user_id db =
    if ltb 999999999999999 db.next_user_id
    then raise sequence_exhausted db
    else returned db.next_user_id (record db { next_user_id = suc db.next_user_id })

-- The defaults of core.users are no coins and no moderator.
abbrev pub new_user : Text → User
new_user nickname = record { nickname = nickname; coins = pos 0; is_mod = false }

-- `create_core_user`
unfoldable pub create_core_user : ℕ → Text → Action (Unit {0})
create_core_user u nickname db =
    if contains u db.users
    then raise unique_violation db
    else pure tt (record db { users = insert u (new_user nickname) db.users })

abbrev pub belongs_to : ℕ → EmailAuth → Bool
belongs_to u row = row.user_id == u

abbrev pub new_email_auth : ℕ → Text → Text → EmailAuth
new_email_auth u email password_hash = record {
  user_id = u;
  email = email;
  password_hash = password_hash;
  email_verified_at = none;
}

-- `create_email_auth`, with the primary key, the unique index on the email, and the foreign key
unfoldable pub create_email_auth : ℕ → Text → Text → Action (Unit {0})
create_email_auth u email password_hash db =
    if any (belongs_to u) db.email_auth || any (has_email email) db.email_auth
    then raise unique_violation db
    else if not (contains u db.users)
    then raise foreign_key_violation db
    else pure tt (record db { email_auth = new_email_auth u email password_hash ∷ db.email_auth })

abbrev pub new_email_token : ℕ → Text → TokenType → ℕ → EmailToken
new_email_token u token_hash token_type expires_at = record {
  user_id = u;
  token_hash = token_hash;
  token_type = token_type;
  expires_at = expires_at;
  used_at = none;
}

-- `insert_email_token`
unfoldable pub insert_email_token : ℕ → Text → TokenType → ℕ → Action (Unit {0})
insert_email_token u token_hash token_type expires_at db =
    if contains u db.users
    then pure tt (record db {
      email_tokens = new_email_token u token_hash token_type expires_at ∷ db.email_tokens;
    })
    else raise foreign_key_violation db

abbrev pub same_type : TokenType → TokenType → Bool
same_type verification verification = true
same_type verification password_reset = false
same_type password_reset verification = false
same_type password_reset password_reset = true

-- A row of the join of users.email_tokens with the account.
pub record TokenData : Type 0 where
  pub expires_at : ℕ
  pub used_at : Option ℕ
  pub account : Account

abbrev pub token_data : EmailToken → Account → TokenData
token_data t a = record { expires_at = t.expires_at; used_at = t.used_at; account = a }

abbrev pub account_of_user : Dict User → ℕ → EmailAuth → Option Account
account_of_user users u row = if belongs_to u row then join_user users row else none

abbrev pub account_of : AuthDb → ℕ → Option Account
account_of db u = find_map (account_of_user db.users u) db.email_auth

abbrev pub is_token : Text → TokenType → EmailToken → Bool
is_token token_hash token_type t =
    text_eq t.token_hash token_hash && same_type t.token_type token_type

abbrev pub join_account : AuthDb → Text → TokenType → EmailToken → Option TokenData
join_account db token_hash token_type t =
    if is_token token_hash token_type t
    then (elim (account_of db t.user_id) [ none ↦ none | some a ↦ some (token_data t a) ])
    else none

-- `get_token_with_user`
unfoldable pub get_token_with_user : Text → TokenType → AuthDb → Option TokenData
get_token_with_user token_hash token_type db =
    find_map (join_account db token_hash token_type) db.email_tokens

abbrev pub used : ℕ → EmailToken → EmailToken
used now t = record t { used_at = some now }

abbrev pub has_token_hash : Text → EmailToken → Bool
has_token_hash token_hash t = text_eq t.token_hash token_hash

-- `mark_token_used`
unfoldable pub mark_token_used : ℕ → Text → AuthDb → AuthDb
mark_token_used now token_hash db = record db {
  email_tokens = update_where (has_token_hash token_hash) (used now) db.email_tokens;
}

abbrev pub set_verified : ℕ → EmailAuth → EmailAuth
set_verified now row = record row { email_verified_at = some now }

-- `mark_email_verified`
unfoldable pub mark_email_verified : ℕ → ℕ → AuthDb → AuthDb
mark_email_verified now u db = record db {
  email_auth = update_where (belongs_to u) (set_verified now) db.email_auth;
}

abbrev pub is_live : ℕ → TokenType → EmailToken → Bool
is_live u token_type t =
    (t.user_id == u) && same_type t.token_type token_type && not (is_some t.used_at)

-- `invalidate_user_tokens`
unfoldable pub invalidate_user_tokens : ℕ → ℕ → TokenType → AuthDb → AuthDb
invalidate_user_tokens now u token_type db = record db {
  email_tokens = update_where (is_live u token_type) (used now) db.email_tokens;
}

abbrev pub set_password : Text → EmailAuth → EmailAuth
set_password password_hash row = record row { password_hash = password_hash }

-- `update_password`
unfoldable pub update_password : ℕ → Text → AuthDb → AuthDb
update_password u password_hash db = record db {
  email_auth = update_where (belongs_to u) (set_password password_hash) db.email_auth;
}

abbrev pub of_user : ℕ → RememberToken → Bool
of_user u r = r.user_id == u

-- `revoke_remember_tokens`, with the number of rows deleted
unfoldable pub revoke_remember_tokens : ℕ → Action ℕ
revoke_remember_tokens u db =
    returned (count_where (of_user u) db.remember_tokens)
      (record db { remember_tokens = delete_where (of_user u) db.remember_tokens })

-- `get_auth_status`
unfoldable pub get_auth_status : ℕ → AuthDb → Option EmailAuth
get_auth_status u db = find? (belongs_to u) db.email_auth
