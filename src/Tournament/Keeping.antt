-- ===== src/Tournament/Keeping.antt =====
-- Operations that keep the ledger of experience, and how they are put together.
use genjishimada.Base.{ℕ, ◌≡◌, refl, arith, [], ◌∷◌}
use genjishimada.Base.Dict.{Dict, contains}
use genjishimada.Economy.Action.{ok}
use genjishimada.Tournament.Tables.{Tournaments, Cycle}
use genjishimada.Tournament.Action.{Step, bind_ok, done, reads, changes, ◌>>=◌}
use genjishimada.Tournament.Ledger.{Paid, Paid-refl, Paid-trans}
use genjishimada.Tournament.EditionRepository.{complete_cycles, complete_edition}

-- An operation that keeps the ledger wherever it succeeds.
abbrev pub Keeps : {A : Type 0} → Step A → Type 0
Keeps {A} m = (a : A) (t t' : Tournaments) → m t ≡ ok (a, t') → Paid t t'

pub Keeps-bind :
    {A B : Type 0} (m : Step A) (f : A → Step B)
    → Keeps m
    → ((a : A) → Keeps (f a))
    → Keeps (m >>= f)
Keeps-bind m f hm hf b t t'' h =
    let (a, t', first, rest) = bind_ok m f b t t'' h in
    Paid-trans (hm a t t' first) (hf a b t' t'' rest)

pub Keeps-done : {A : Type 0} (a : A) → Keeps (done a)
Keeps-done a b t t' h = let same : t' ≡ t = ground arith in rw same (Paid-refl t)

pub Keeps-reads : {A : Type 0} (f : Tournaments → A) → Keeps (reads f)
Keeps-reads f b t t' h = let same : t' ≡ t = ground arith in rw same (Paid-refl t)

pub Keeps-changes :
    (f : Tournaments → Tournaments) → ((t : Tournaments) → Paid t (f t)) → Keeps (changes f)
Keeps-changes f p b t t' h = let same : t' ≡ f t = ground arith in rw same (p t)

contains-complete_cycles :
    (c i : ℕ) (d : Dict Cycle) → contains c (complete_cycles i d) ≡ contains c d
contains-complete_cycles c i [] = refl
contains-complete_cycles c i (e ∷ d) = ground (arith, contains-complete_cycles c i d)

pub complete_edition-Paid : (i : ℕ) (t : Tournaments) → Paid t (complete_edition i t)
unfolding complete_edition
complete_edition-Paid i t = record {
  unique = λ h. h;
  kept = λ c u r h. h;
  categories = refl;
  completions = refl;
  has_keys_kept = λ c u h. rw (contains-complete_cycles c i t.cycles) h;
  multiplier = refl;
  balance = λ u. refl;
}

-- A change of other tables keeps the ledger.
pub same-Paid :
    (t t' : Tournaments)
    → t' ≡ record t {
      editions = t'.editions;
      transitions = t'.transitions;
      next_transition_id = t'.next_transition_id;
      messages = t'.messages;
    }
    → Paid t t'
same-Paid t t' h = rw h (record {
  unique = λ h. h;
  kept = λ c u r h. h;
  categories = refl;
  completions = refl;
  has_keys_kept = λ c u h. h;
  multiplier = refl;
  balance = λ u. refl;
})
