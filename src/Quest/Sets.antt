-- ===== src/Quest/Sets.antt =====
-- The sets of map ids that the progress of a quest keeps, as lists without repetitions.
use genjishimada.Base.{ℕ, ◌+◌, ◌≡◌, refl, true, false, Option, List, [], ◌∷◌, arith, opt_eq_iff}
use genjishimada.Base.Lists.{length}
use genjishimada.Quest.Types.{member, to_set, add, remove}

abbrev pub IsSetList : List (Option ℕ) → Type 0
IsSetList [] = Unit
IsSetList (x ∷ s) = (member x s ≡ false) × IsSetList s

pub to_set-IsSetList : (xs : List (Option ℕ)) → IsSetList (to_set xs)
to_set-IsSetList [] = tt
to_set-IsSetList (x ∷ xs) = ground (arith, to_set-IsSetList xs)

pub to_set_id : (xs : List (Option ℕ)) → IsSetList xs → to_set xs ≡ xs
to_set_id [] h = refl
to_set_id (x ∷ xs) h = rw (to_set_id xs h.1) (ground arith)

pub add-IsSetList : (x : Option ℕ) (s : List (Option ℕ)) → IsSetList s → IsSetList (add x s)
add-IsSetList x s h = ground arith

pub member-add : (x : Option ℕ) (s : List (Option ℕ)) → member x (add x s) ≡ true
member-add x s = ground (arith, opt_eq_iff x x)

pub length-add :
    (x : Option ℕ) (s : List (Option ℕ)) → member x s ≡ false → length (add x s) ≡ length s + 1
length-add x s h = ground arith

pub remove-add : (x : Option ℕ) (s : List (Option ℕ)) → member x s ≡ false → remove x (add x s) ≡ s
remove-add x s h = ground (arith, opt_eq_iff x x)

pub length-remove :
    (x : Option ℕ) (s : List (Option ℕ)) → member x s ≡ true → length (remove x s) + 1 ≡ length s
length-remove x [] h = absurd (ground arith)
length-remove x (y ∷ s) h = ground (arith, length-remove x s)

member-remove_ne :
    (x y : Option ℕ) (s : List (Option ℕ)) → member y s ≡ false → member y (remove x s) ≡ false
member-remove_ne x y [] h = refl
member-remove_ne x y (z ∷ s) h = ground (arith, member-remove_ne x y s)

pub remove-IsSetList : (x : Option ℕ) (s : List (Option ℕ)) → IsSetList s → IsSetList (remove x s)
remove-IsSetList x [] h = tt
remove-IsSetList x (y ∷ s) h = ground (arith, remove-IsSetList x s h.1, member-remove_ne x y s)
