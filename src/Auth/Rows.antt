-- ===== src/Auth/Rows.antt =====
-- What the tables of the accounts promise, and the statements of
-- apps/api/repository/auth_repository.py that keep it.
use genjishimada.Base.{ℕ, ◌≡◌, refl, ◌≤◌, Bool, true, false, List, [], ◌∷◌, arith}
use genjishimada.Base.Dict.{Dict, insert, contains, lookup-insert}
use genjishimada.Base.Lists.{All, any}
use genjishimada.Base.Rows.{
  update_where, count_where, count_where-update_where, any-update_where, All-update_where,
}
use genjishimada.Base.Text.{Text}
use genjishimada.Auth.Tables.{User, EmailAuth, TokenType, EmailToken}
use genjishimada.Auth.Validation.{is_email}
use genjishimada.Auth.Repository.{
  has_email, belongs_to, is_live, used, new_email_auth, new_email_token, same_type,
}

-- Emails are distinct up to case, and user ids are; each email is valid and each user exists.
abbrev pub AuthRows : Dict User → List EmailAuth → Type 0
AuthRows users [] = Unit
AuthRows users (row ∷ rows) =
    (any (has_email row.email) rows ≡ false)
    × (any (belongs_to row.user_id) rows ≡ false)
    × (is_email row.email ≡ true)
    × (contains row.user_id users ≡ true)
    × AuthRows users rows

abbrev pub TokenRows : Dict User → List EmailToken → Type 0
TokenRows users = All (λ t. contains t.user_id users ≡ true)

-- A user has at most one unused token of each type.
abbrev pub OneLive : List EmailToken → Type 0
OneLive tokens = (u : ℕ) (k : TokenType) → count_where (is_live u k) tokens ≤ 1

pub AuthRows-update :
    (users : Dict User) (p : EmailAuth → Bool) (f : EmailAuth → EmailAuth) (rows : List EmailAuth)
    → ((row : EmailAuth) → (f row).email ≡ row.email)
    → ((row : EmailAuth) → (f row).user_id ≡ row.user_id)
    → AuthRows users rows
    → AuthRows users (update_where p f rows)
AuthRows-update users p f [] same_email same_id h = tt
AuthRows-update users p f (row ∷ rows) same_email same_id h = (
  ground (
    arith,
    same_email row,
    h.0,
    any-update_where (has_email row.email) p f rows (λ x. ground (arith, same_email x)),
  ),
  ground (
    arith,
    same_id row,
    h.1,
    any-update_where (belongs_to row.user_id) p f rows (λ x. ground (arith, same_id x)),
  ),
  ground (arith, same_email row, h.2),
  ground (arith, same_id row, h.3),
  AuthRows-update users p f rows same_email same_id h.4,
)

contains-insert :
    (j k : ℕ) (v : User) (d : Dict User) → contains j d ≡ true → contains j (insert k v d) ≡ true
contains-insert j k v d h = ground (arith, lookup-insert j k v d)

pub AuthRows-insert :
    (u : ℕ) (user : User) (users : Dict User) (rows : List EmailAuth)
    → AuthRows users rows
    → AuthRows (insert u user users) rows
AuthRows-insert u user users [] h = tt
AuthRows-insert u user users (row ∷ rows) h = (
  h.0,
  h.1,
  h.2,
  contains-insert row.user_id u user users h.3,
  AuthRows-insert u user users rows h.4,
)

pub TokenRows-insert :
    (u : ℕ) (user : User) (users : Dict User) (tokens : List EmailToken)
    → TokenRows users tokens
    → TokenRows (insert u user users) tokens
TokenRows-insert u user users [] h = tt
TokenRows-insert u user users (t ∷ tokens) h =
    (contains-insert t.user_id u user users h.0, TokenRows-insert u user users tokens h.1)

pub TokenRows-used :
    (users : Dict User) (p : EmailToken → Bool) (now : ℕ) (tokens : List EmailToken)
    → TokenRows users tokens
    → TokenRows users (update_where p (used now) tokens)
TokenRows-used users p now tokens h =
    All-update_where (λ t. contains t.user_id users ≡ true) p (used now) tokens (λ x e. e) h

pub OneLive-used :
    (p : EmailToken → Bool) (now : ℕ) (tokens : List EmailToken)
    → OneLive tokens
    → OneLive (update_where p (used now) tokens)
OneLive-used p now tokens h u k =
    ground (
      arith,
      h u k,
      count_where-update_where (is_live u k) p (used now) tokens (λ x e. ground arith),
    )

none_live_after :
    (u now : ℕ) (k : TokenType) (tokens : List EmailToken)
    → count_where (is_live u k) (update_where (is_live u k) (used now) tokens) ≡ 0
none_live_after u now k [] = refl
none_live_after u now k (t ∷ tokens) = ground (arith, none_live_after u now k tokens)

same_type_sound : (j k : TokenType) → same_type j k ≡ true → j ≡ k
same_type_sound j k h = ground arith

-- A new token keeps the promise where its user has no unused one of its type.
pub OneLive-new :
    (u : ℕ) (h : Text) (k : TokenType) (expires_at : ℕ) (tokens : List EmailToken)
    → OneLive tokens
    → count_where (is_live u k) tokens ≡ 0
    → OneLive (new_email_token u h k expires_at ∷ tokens)
OneLive-new u h k expires_at tokens one free v j = ground (arith, one v j, same_type_sound k j)

pub OneLive-replaced :
    (u now : ℕ) (h : Text) (k : TokenType) (expires_at : ℕ) (tokens : List EmailToken)
    → OneLive tokens
    → OneLive (new_email_token u h k expires_at ∷ update_where (is_live u k) (used now) tokens)
OneLive-replaced u now h k expires_at tokens one =
    OneLive-new u h k expires_at (update_where (is_live u k) (used now) tokens)
      (OneLive-used (is_live u k) now tokens one) (none_live_after u now k tokens)

-- A user that does not exist has no token.
pub none_live_unknown :
    (u : ℕ) (k : TokenType) (users : Dict User) (tokens : List EmailToken)
    → TokenRows users tokens
    → contains u users ≡ false
    → count_where (is_live u k) tokens ≡ 0
none_live_unknown u k users [] h unknown = refl
none_live_unknown u k users (t ∷ tokens) h unknown =
    ground (arith, h.0, none_live_unknown u k users tokens h.1 unknown)

-- A new account keeps the promise where its email and its user id are new.
pub AuthRows-new :
    (u : ℕ) (email password_hash : Text) (users : Dict User) (rows : List EmailAuth)
    → AuthRows users rows
    → any (has_email email) rows ≡ false
    → any (belongs_to u) rows ≡ false
    → is_email email ≡ true
    → contains u users ≡ true
    → AuthRows users (new_email_auth u email password_hash ∷ rows)
AuthRows-new u email password_hash users rows h new_email new_id valid known =
    (new_email, new_id, valid, known, h)
