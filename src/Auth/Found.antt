-- ===== src/Auth/Found.antt =====
-- What the queries of apps/api/repository/auth_repository.py find after its updates.
use genjishimada.Base.{
  ℕ, ◌≡◌, Bool, true, ◌&&◌, some, ◌==◌, is_some, not, if◌then◌else◌, arith, Option-cases, inl, inr,
}
use mathlib.Core.Option
use genjishimada.Base.Rows.{find_map-update_where, find_map-same, find_map_sound}
use genjishimada.Base.Text.{Text, text_eq, text_eq_iff}
use genjishimada.Auth.Tables.{TokenType, AuthDb}
use genjishimada.Auth.Repository.{
  Account, TokenData, account_of, account_of_user, account_for, join_account, get_user_by_email,
  get_token_with_user, mark_token_used, mark_email_verified, invalidate_user_tokens,
  update_password, same_type, used, is_live, belongs_to, set_password, set_verified, has_token_hash,
}

-- An account after `update_password`, and after `mark_email_verified`.
abbrev pub with_password : ℕ → Text → Account → Account
with_password u h a = if a.user_id == u then record a { password_hash = h } else a

abbrev pub with_verified : ℕ → ℕ → Account → Account
with_verified now u a = if a.user_id == u then record a { email_verified_at = some now } else a

-- What a token's row says of it once it is used.
abbrev pub use_token : Bool → ℕ → TokenData → TokenData
use_token b now t = if b then record t { used_at = some now } else t

abbrev pub on_account : (Account → Account) → TokenData → TokenData
on_account f t = record t { account = f t.account }

pub get_user_by_email-update_password :
    (u : ℕ) (h e : Text) (db : AuthDb)
    → get_user_by_email e (update_password u h db)
      ≡ Option.map (with_password u h) (get_user_by_email e db)
unfolding get_user_by_email update_password
get_user_by_email-update_password u h e db =
    find_map-update_where (account_for db.users e) (account_for db.users e) (with_password u h)
      (belongs_to u) (set_password h) db.email_auth (λ x. ground arith)

pub account_of-update_password :
    (u v : ℕ) (h : Text) (db : AuthDb)
    → account_of (update_password u h db) v ≡ Option.map (with_password u h) (account_of db v)
unfolding update_password
account_of-update_password u v h db =
    find_map-update_where (account_of_user db.users v) (account_of_user db.users v)
      (with_password u h) (belongs_to u) (set_password h) db.email_auth (λ x. ground arith)

pub account_of-mark_email_verified :
    (now u v : ℕ) (db : AuthDb)
    → account_of (mark_email_verified now u db) v
      ≡ Option.map (with_verified now u) (account_of db v)
unfolding mark_email_verified
account_of-mark_email_verified now u v db =
    find_map-update_where (account_of_user db.users v) (account_of_user db.users v)
      (with_verified now u) (belongs_to u) (set_verified now) db.email_auth (λ x. ground arith)

pub get_token_with_user-update_password :
    (u : ℕ) (p h : Text) (k : TokenType) (db : AuthDb)
    → get_token_with_user h k (update_password u p db)
      ≡ Option.map (on_account (with_password u p)) (get_token_with_user h k db)
unfolding get_token_with_user update_password
get_token_with_user-update_password u p h k db =
    find_map-same (join_account db h k) (join_account (update_password u p db) h k)
      (on_account (with_password u p)) db.email_tokens
      (λ t. ground (arith, account_of-update_password u t.user_id p db))

pub get_token_with_user-mark_email_verified :
    (now u : ℕ) (h : Text) (k : TokenType) (db : AuthDb)
    → get_token_with_user h k (mark_email_verified now u db)
      ≡ Option.map (on_account (with_verified now u)) (get_token_with_user h k db)
unfolding get_token_with_user mark_email_verified
get_token_with_user-mark_email_verified now u h k db =
    find_map-same (join_account db h k) (join_account (mark_email_verified now u db) h k)
      (on_account (with_verified now u)) db.email_tokens
      (λ t. ground (arith, account_of-mark_email_verified now u t.user_id db))

pub get_token_with_user-mark_token_used :
    (now : ℕ) (h g : Text) (k : TokenType) (db : AuthDb)
    → get_token_with_user g k (mark_token_used now h db)
      ≡ Option.map (use_token (text_eq g h) now) (get_token_with_user g k db)
unfolding get_token_with_user mark_token_used
get_token_with_user-mark_token_used now h g k db =
    find_map-update_where (join_account db g k) (join_account (mark_token_used now h db) g k)
      (use_token (text_eq g h) now) (has_token_hash h) (used now) db.email_tokens
      (λ t. ground (arith, text_eq_iff t.token_hash g))

-- The account of a user bears the user's id.
pub account_of-user_id :
    (db : AuthDb) (u : ℕ) (a : Account) → account_of db u ≡ some a → a.user_id ≡ u
account_of-user_id db u a h =
    let (row, e) = find_map_sound (account_of_user db.users u) db.email_auth a h in ground arith

-- Whether an invalidation of tokens of type `k` of user `u` uses the token found as of type `j`.
abbrev pub is_invalidated : ℕ → TokenType → TokenType → TokenData → Bool
is_invalidated u k j t = (t.account.user_id == u) && same_type j k && not (is_some t.used_at)

abbrev pub after_invalidation : ℕ → ℕ → TokenType → TokenType → TokenData → TokenData
after_invalidation now u k j t = use_token (is_invalidated u k j t) now t

same_type_eq : (j k l : TokenType) → same_type j k ≡ true → same_type j l ≡ same_type k l
same_type_eq j k l h = ground arith

pub get_token_with_user-invalidate_user_tokens :
    (now u : ℕ) (g : Text) (k j : TokenType) (db : AuthDb)
    → get_token_with_user g j (invalidate_user_tokens now u k db)
      ≡ Option.map (after_invalidation now u k j) (get_token_with_user g j db)
unfolding get_token_with_user invalidate_user_tokens
get_token_with_user-invalidate_user_tokens now u g k j db =
    find_map-update_where (join_account db g j)
      (join_account (invalidate_user_tokens now u k db) g j) (after_invalidation now u k j)
      (is_live u k) (used now) db.email_tokens
      (λ t. elim (Option-cases (account_of db t.user_id)) [
        | inl e ↦ ground arith
        | inr (a, e) ↦
            ground (arith, account_of-user_id db t.user_id a e, same_type_eq t.token_type j k)
      ])
