-- ===== src/Auth/Action.antt =====
-- Database calls of the accounts. Outside a transaction each statement commits by itself, so an
-- error carries the tables as they are then; `transaction` takes them back to where it began, but
-- for the sequence of the user ids, which PostgreSQL does not take back.
use genjishimada.Base.{Bool, true, false, Option, none, some, List, if◌then◌else◌}
use genjishimada.Base.Text.{Text}
use genjishimada.Auth.Tables.{TokenType, AuthDb}

-- The rows of PASSWORD_REQUIREMENTS.
pub data Requirement : Type 0 where
  lowercase : Requirement
  uppercase : Requirement
  number : Requirement
  special : Requirement

-- The messages of PasswordValidationError and UsernameValidationError.
pub data PasswordFault : Type 0 where
  too_short : PasswordFault
  missing : List Requirement → PasswordFault

pub data UsernameFault : Type 0 where
  bad_length : UsernameFault
  bad_character : UsernameFault
  only_whitespace : UsernameFault

-- The exceptions of apps/api/services/exceptions/auth.py, the violations of constraints that the
-- repository raises, an exhausted sequence, and Python's ValueError.
pub data Error : Type 0 where
  invalid_credentials : Text → Error
  email_already_exists : Text → Error
  rate_limit_exceeded : Text → Error
  token_expired : TokenType → Error
  token_already_used : TokenType → Error
  token_invalid : TokenType → Error
  email_already_verified : Error
  user_not_found : Error
  email_validation : Error
  password_validation : PasswordFault → Error
  username_validation : UsernameFault → Error
  unique_violation : Error
  foreign_key_violation : Error
  sequence_exhausted : Error
  value_error : Error

pub data Result (A : Type 0) : Type 0 where
  ok : A → Result A
  err : Error → Result A

-- How a call ends, and the tables then.
pub data Outcome (A : Type 0) : Type 0 where
  returned : A → AuthDb → Outcome A
  raised : Error → AuthDb → Outcome A

abbrev pub Action : Type 0 → Type 0
Action A = AuthDb → Outcome A

module _ {A : Type 0} where
  abbrev pub pure : A → Action A
  pure a db = returned a db

  abbrev pub raise : Error → Action A
  raise e db = raised e db

  -- A query.
  abbrev pub gets : (AuthDb → A) → Action A
  gets f db = returned (f db) db

  -- A result of code that does not use the database.
  abbrev pub lift : Result A → Action A
  lift (ok a) = pure a
  lift (err e) = raise e

  -- `if x is None: raise e`
  abbrev pub or_raise : Option A → Error → Action A
  or_raise none e = raise e
  or_raise (some a) e = pure a

abbrev pub bind : {A B : Type 0} → Outcome A → (A → Action B) → Outcome B
bind (returned a db) f = f a db
bind (raised e db) f = raised e db

infixl 5 ◌>>=◌ ◌>>◌
abbrev pub ◌>>=◌ : {A B : Type 0} → Action A → (A → Action B) → Action B
◌>>=◌ m f db = bind (m db) f

abbrev pub ◌>>◌ : {A B : Type 0} → Action A → Action B → Action B
m >> k = m >>= λ _. k

abbrev pub modify : (AuthDb → AuthDb) → Action (Unit {0})
modify f db = returned tt (f db)

abbrev pub raise_if : Bool → Error → Action (Unit {0})
raise_if true e = raise e
raise_if false e = pure tt

abbrev pub roll_back : {A : Type 0} → AuthDb → Outcome A → Outcome A
roll_back db (returned a db') = returned a db'
roll_back db (raised e db') = raised e (record db { next_user_id = db'.next_user_id })

-- `async with conn.transaction()`
abbrev pub transaction : {A : Type 0} → Action A → Action A
transaction m db = roll_back db (m db)

abbrev pub is_violation : Error → Bool
is_violation unique_violation = true
is_violation foreign_key_violation = true
is_violation _ = false

abbrev pub replaced : {A : Type 0} → Error → Outcome A → Outcome A
replaced e (returned a db) = returned a db
replaced e (raised f db) = raised (if is_violation f then e else f) db

-- `except UniqueConstraintViolationError, ForeignKeyViolationError: raise e`
abbrev pub on_violation : {A : Type 0} → Error → Action A → Action A
on_violation e m db = replaced e (m db)

-- The tables that a call leaves.
abbrev pub tables_of : {A : Type 0} → Outcome A → AuthDb
tables_of (returned a db) = db
tables_of (raised e db) = db
