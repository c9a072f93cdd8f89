-- ===== src/Tournament/Action.antt =====
-- Calls on the tables of the tournaments that may raise, in the transaction of their caller.
use genjishimada.Base.{◌≡◌, refl}
use genjishimada.Economy.Tables.{Database}
use genjishimada.Economy.Action.{Error, Result, ok, err}
use genjishimada.Tournament.Tables.{Tournaments}

abbrev pub Step : Type 0 → Type 0
Step A = Tournaments → Result (A × Tournaments)

abbrev pub done : {A : Type 0} → A → Step A
done a t = ok (a, t)

abbrev pub fail : {A : Type 0} → Error → Step A
fail e t = err e

abbrev pub continue_with :
    {A B : Type 0} → Result (A × Tournaments) → (A → Step B) → Result (B × Tournaments)
continue_with (ok (a, t)) f = f a t
continue_with (err e) f = err e

infixl 5 ◌>>=◌ ◌>>◌
abbrev pub ◌>>=◌ : {A B : Type 0} → Step A → (A → Step B) → Step B
◌>>=◌ m f t = continue_with (m t) f

abbrev pub ◌>>◌ : {A B : Type 0} → Step A → Step B → Step B
m >> k = m >>= λ _. k

abbrev pub changes : (Tournaments → Tournaments) → Step (Unit {0})
changes f t = ok (tt, f t)

abbrev pub reads : {A : Type 0} → (Tournaments → A) → Step A
reads f t = ok (f t, t)

abbrev pub in_economy :
    {A : Type 0} → Tournaments → Result (A × Database) → Result (A × Tournaments)
in_economy t (ok (a, db)) = ok (a, record t { economy = db })
in_economy t (err e) = err e

-- A call of another service on the same connection.
abbrev pub on_economy : {A : Type 0} → (Database → Result (A × Database)) → Step A
on_economy m t = in_economy t (m t.economy)

-- A sequence after a result, where it succeeds.
continue_ok :
    {A B : Type 0} (o : Result (A × Tournaments)) (f : A → Step B) (b : B) (t'' : Tournaments)
    → continue_with o f ≡ ok (b, t'')
    → (a : A) × (t' : Tournaments) × (o ≡ ok (a, t')) × (f a t' ≡ ok (b, t''))
continue_ok (ok (a, t')) f b t'' h = (a, t', refl, h)
continue_ok (err e) f b t'' h = cc

-- A sequence that succeeds has gone through the tables between its two parts.
pub bind_ok :
    {A B : Type 0} (m : Step A) (f : A → Step B) (b : B) (t t'' : Tournaments)
    → (m >>= f) t ≡ ok (b, t'')
    → (a : A) × (t' : Tournaments) × (m t ≡ ok (a, t')) × (f a t' ≡ ok (b, t''))
bind_ok m f b t t'' h = continue_ok (m t) f b t'' h
