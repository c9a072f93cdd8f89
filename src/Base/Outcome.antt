-- ===== src/Base/Outcome.antt =====
-- Calls on a state that may raise, each statement of which commits by itself, so an error carries
-- the state as it is then; `transaction` takes it back to where it began.
use mathlib.Core.Bool.{Bool, true, false}
use mathlib.Core.Option.{Option, none, some}

-- How a call ends, and the state then.
pub data Outcome (S E A : Type 0) : Type 0 where
  returned : A → S → Outcome S E A
  raised : E → S → Outcome S E A

module _ {S E : Type 0} where
  abbrev pub pure : {A : Type 0} → A → S → Outcome S E A
  pure a s = returned a s

  abbrev pub raise : {A : Type 0} → E → S → Outcome S E A
  raise e s = raised e s

  abbrev pub gets : {A : Type 0} → (S → A) → S → Outcome S E A
  gets f s = returned (f s) s

  abbrev pub modify : (S → S) → S → Outcome S E (Unit {0})
  modify f s = returned tt (f s)

  -- `if x is None: raise e`
  abbrev pub or_raise : {A : Type 0} → Option A → E → S → Outcome S E A
  or_raise none e = raise e
  or_raise (some a) e = pure a

  abbrev pub raise_if : Bool → E → S → Outcome S E (Unit {0})
  raise_if true e = raise e
  raise_if false e = pure tt

  abbrev pub bind : {A B : Type 0} → Outcome S E A → (A → S → Outcome S E B) → Outcome S E B
  bind (returned a s) f = f a s
  bind (raised e s) f = raised e s

  infixl 5 ◌>>=◌ ◌>>◌
  abbrev pub ◌>>=◌ :
      {A B : Type 0} → (S → Outcome S E A) → (A → S → Outcome S E B) → S → Outcome S E B
  ◌>>=◌ m f s = bind (m s) f

  abbrev pub ◌>>◌ : {A B : Type 0} → (S → Outcome S E A) → (S → Outcome S E B) → S → Outcome S E B
  m >> k = m >>= λ _. k

  abbrev pub roll_back : {A : Type 0} → S → Outcome S E A → Outcome S E A
  roll_back s (returned a s') = returned a s'
  roll_back s (raised e s') = raised e s

  -- `async with conn.transaction()`
  abbrev pub transaction : {A : Type 0} → (S → Outcome S E A) → S → Outcome S E A
  transaction m s = roll_back s (m s)

  -- The state that a call leaves.
  abbrev pub state_of : {A : Type 0} → Outcome S E A → S
  state_of (returned a s) = s
  state_of (raised e s) = s
