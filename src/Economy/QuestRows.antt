-- ===== src/Economy/QuestRows.antt =====
-- The table of quest rows under the statements that change one row, and as a keyed table.
use genjishimada.Base.{
  ℕ, ◌≡◌, refl, Bool, Option, none, some, [], ◌∷◌, arith, ◌==◌, if◌then◌else◌, Bool-cases, inl, inr,
}
use genjishimada.Base.Dict.{Dict, lookup}
use genjishimada.Base.Lists.{All, filter}
use genjishimada.Economy.Tables.{QuestRow}
use genjishimada.Economy.StoreRepository.{update_row}

-- No id is listed twice, as the primary key demands.
abbrev pub IsKeyed : Dict QuestRow → Type 0
IsKeyed [] = Unit
IsKeyed (e ∷ d) = (lookup e.0 d ≡ none) × IsKeyed d

-- `f` of the row, where there is one.
abbrev pub on_row : (QuestRow → QuestRow) → Option QuestRow → Option QuestRow
on_row f none = none
on_row f (some row) = some (f row)

pub lookup-update_row :
    (j i : ℕ) (f : QuestRow → QuestRow) (d : Dict QuestRow)
    → lookup j (update_row i f d) ≡ (if j == i then on_row f (lookup j d) else lookup j d)
lookup-update_row j i f [] = ground arith
lookup-update_row j i f (e ∷ d) = ground (arith, lookup-update_row j i f d)

pub update_row-IsKeyed :
    (i : ℕ) (f : QuestRow → QuestRow) (d : Dict QuestRow) → IsKeyed d → IsKeyed (update_row i f d)
update_row-IsKeyed i f [] h = tt
update_row-IsKeyed i f (e ∷ d) h =
    ground (arith, h, update_row-IsKeyed i f d h.1, lookup-update_row e.0 i f d)

module _ (p : QuestRow → Bool) where
  abbrev pub chosen : Dict QuestRow → Dict QuestRow
  chosen d = filter (λ (e : ℕ × QuestRow). p e.1) d

  pub lookup-chosen-none :
      (j : ℕ) (d : Dict QuestRow) → lookup j d ≡ none → lookup j (chosen d) ≡ none
  lookup-chosen-none j [] h = refl
  lookup-chosen-none j (e ∷ d) h = ground (arith, lookup-chosen-none j d)

  pub chosen-IsKeyed : (d : Dict QuestRow) → IsKeyed d → IsKeyed (chosen d)
  chosen-IsKeyed [] h = tt
  chosen-IsKeyed (e ∷ d) h = ground (arith, h, chosen-IsKeyed d h.1, lookup-chosen-none e.0 d h.0)

  -- The rows that pass a test, each under its own id.
  pub lookup-chosen :
      (j : ℕ) (d : Dict QuestRow) (row : QuestRow)
      → IsKeyed d
      → lookup j d ≡ some row
      → lookup j (chosen d) ≡ (if p row then some row else none)
  lookup-chosen j [] row h e = cc
  lookup-chosen j (x ∷ d) row h e =
      ground (arith, h, lookup-chosen j d row h.1, lookup-chosen-none j d)

-- Each listed row stands in the table under its id.
abbrev pub AllIn : Dict QuestRow → Dict QuestRow → Type 0
AllIn d qs = All (λ (q : ℕ × QuestRow). lookup q.0 d ≡ some q.1) qs

AllIn-weaken :
    (e : ℕ × QuestRow) (d qs : Dict QuestRow) → lookup e.0 d ≡ none → AllIn d qs → AllIn (e ∷ d) qs
AllIn-weaken e d [] h a = tt
AllIn-weaken e d (q ∷ qs) h a = (ground (arith, h, a.0), AllIn-weaken e d qs h a.1)

pub AllIn-chosen :
    (p : QuestRow → Bool) (d : Dict QuestRow)
    → IsKeyed d
    → AllIn d (filter (λ (e : ℕ × QuestRow). p e.1) d)
AllIn-chosen p [] h = tt
AllIn-chosen p (e ∷ d) h =
    let rest =
      AllIn-weaken e d (filter (λ (x : ℕ × QuestRow). p x.1) d) h.0 (AllIn-chosen p d h.1) in
    elim (Bool-cases (p e.1)) [
      | inl chosen_row ↦ rw chosen_row (ground arith, rest)
      | inr left_out ↦ rw left_out rest
    ]

-- A statement on another id keeps the listed rows in their places.
pub AllIn-update_row :
    (i : ℕ) (f : QuestRow → QuestRow) (d qs : Dict QuestRow)
    → lookup i qs ≡ none
    → AllIn d qs
    → AllIn (update_row i f d) qs
AllIn-update_row i f d [] h a = tt
AllIn-update_row i f d (q ∷ qs) h a = (
  ground (arith, h, a.0, lookup-update_row q.0 i f d),
  AllIn-update_row i f d qs (ground (arith, h)) a.1,
)
