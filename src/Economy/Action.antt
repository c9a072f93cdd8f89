-- ===== src/Economy/Action.antt =====
-- Database calls that may raise. Inside a transaction an error discards what was written, so it
-- carries no state; `transaction` is `async with conn.transaction()`, which keeps the old state.
use genjishimada.Base.{ℕ, Bool, true, false, Option, none, some}
use genjishimada.Base.Int.{ℤ}
use genjishimada.Economy.Tables.{Database}

-- The exceptions of apps/api/services/exceptions/store.py, lootbox.py and tournaments.py, the
-- violation of a foreign key, and Python's ValueError.
pub data Error : Type 0 where
  invalid_quantity : ℕ → Error
  invalid_key_type : Error
  insufficient_coins : ℤ → ℤ → Error
  item_not_in_rotation : Error
  rotation_expired : Error
  already_owned : Error
  insufficient_keys : Error
  foreign_key_violation : Error
  value_error : Error
  quest_not_found : Error
  quest_already_claimed : Error
  quest_not_completed : Error
  no_awaiting_results_edition : Error

pub data Result (A : Type 0) : Type 0 where
  ok : A → Result A
  err : Error → Result A

abbrev pub Action : Type 0 → Type 0
Action A = Database → Result (A × Database)

module _ {A : Type 0} where
  abbrev pub pure : A → Action A
  pure a db = ok (a, db)

  abbrev pub raise : Error → Action A
  raise e db = err e

  -- A query.
  abbrev pub gets : (Database → A) → Action A
  gets f db = ok (f db, db)

  -- `if x is None: raise e`
  abbrev pub or_raise : Option A → Error → Action A
  or_raise none e = raise e
  or_raise (some a) e = pure a

abbrev pub bind : {A B : Type 0} → Result (A × Database) → (A → Action B) → Result (B × Database)
bind (ok (a, db)) f = f a db
bind (err e) f = err e

infixl 5 ◌>>=◌ ◌>>◌
abbrev pub ◌>>=◌ : {A B : Type 0} → Action A → (A → Action B) → Action B
◌>>=◌ m f db = bind (m db) f

abbrev pub ◌>>◌ : {A B : Type 0} → Action A → Action B → Action B
m >> k = m >>= λ _. k

abbrev pub modify : (Database → Database) → Action (Unit {0})
modify f db = ok (tt, f db)

abbrev pub raise_if : Bool → Error → Action (Unit {0})
raise_if true e = raise e
raise_if false e = pure tt

abbrev pub finish : {A : Type 0} → Database → Result (A × Database) → Result A × Database
finish db (ok (a, db')) = (ok a, db')
finish db (err e) = (err e, db)

abbrev pub transaction : {A : Type 0} → Action A → Database → Result A × Database
transaction m db = finish db (m db)
