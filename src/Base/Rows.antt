-- ===== src/Base/Rows.antt =====
-- Statements on tables without a numeric key: the rows as a list, what `UPDATE` and `DELETE` with
-- a `WHERE` do to them, and what a query finds afterwards.
use Prim.Native.Nat.{ℕ, ◌≤◌}
use mathlib.Core.Path.{◌≡◌, refl}
use mathlib.Core.Bool.{Bool, true, false}
use mathlib.Core.Option
use mathlib.Core.Option.{Option, none, some}
use mathlib.Core.List.{List, [], ◌∷◌}
use native.Mathlib.Omega.{arith}
use mathlib.Core.Logic.{inl, inr}
use genjishimada.Base.Tests.{if◌then◌else◌, Option-cases}
use genjishimada.Base.Lists.{filter, any, find?, length, All}

-- The first value that the function gives for a row.
abbrev pub find_map {ℓ κ} : {A : Type ℓ} {B : Type κ} → (A → Option B) → List A → Option B
find_map f [] = none
find_map f (x ∷ xs) = elim (f x) [ some b ↦ some b | none ↦ find_map f xs ]

module _ {ℓ} {A : Type ℓ} where
  abbrev pub update_if : (A → Bool) → (A → A) → A → A
  update_if p f x = if p x then f x else x

  -- `UPDATE … SET f WHERE p`
  abbrev pub update_where : (A → Bool) → (A → A) → List A → List A
  update_where p f [] = []
  update_where p f (x ∷ xs) = update_if p f x ∷ update_where p f xs

  -- `DELETE … WHERE p`
  abbrev pub delete_where : (A → Bool) → List A → List A
  delete_where p [] = []
  delete_where p (x ∷ xs) = if p x then delete_where p xs else x ∷ delete_where p xs

  -- The number of rows of `SELECT COUNT(*) … WHERE p`.
  abbrev pub count_where : (A → Bool) → List A → ℕ
  count_where p xs = length (filter p xs)

module _ {ℓ κ} {A : Type ℓ} {B : Type κ} where
  -- What a query finds in updated rows, where the update changes what it gives for each row alike.
  pub find_map-update_where :
      (f g : A → Option B) (h : B → B) (p : A → Bool) (u : A → A) (xs : List A)
      → ((x : A) → g (update_if p u x) ≡ Option.map h (f x))
      → find_map g (update_where p u xs) ≡ Option.map h (find_map f xs)
  find_map-update_where f g h p u [] same = refl
  find_map-update_where f g h p u (x ∷ xs) same =
      ground (arith, same x, find_map-update_where f g h p u xs same)

  pub find_map-same :
      (f g : A → Option B) (h : B → B) (xs : List A)
      → ((x : A) → g x ≡ Option.map h (f x))
      → find_map g xs ≡ Option.map h (find_map f xs)
  find_map-same f g h [] same = refl
  find_map-same f g h (x ∷ xs) same = ground (arith, same x, find_map-same f g h xs same)

  pub find_map_sound :
      (f : A → Option B) (xs : List A) (b : B) → find_map f xs ≡ some b → (x : A) × (f x ≡ some b)
  find_map_sound f [] b h = absurd (ground arith)
  find_map_sound f (x ∷ xs) b h = elim (Option-cases (f x)) [
    | inl e ↦ find_map_sound f xs b (ground arith)
    | inr (c, e) ↦ (x, ground arith)
  ]

module _ {ℓ} {A : Type ℓ} where
  -- An update counts no more rows than before, where a row that counts after it has counted.
  pub count_where-update_where :
      (p q : A → Bool) (u : A → A) (xs : List A)
      → ((x : A) → p x ≡ false → p (u x) ≡ false)
      → count_where p (update_where q u xs) ≤ count_where p xs
  count_where-update_where p q u [] keeps = omega arith
  count_where-update_where p q u (x ∷ xs) keeps =
      ground (arith, keeps x, count_where-update_where p q u xs keeps)

  pub any-update_where :
      (p q : A → Bool) (u : A → A) (xs : List A)
      → ((x : A) → p (u x) ≡ p x)
      → any p (update_where q u xs) ≡ any p xs
  any-update_where p q u [] same = refl
  any-update_where p q u (x ∷ xs) same = ground (arith, same x, any-update_where p q u xs same)

  -- Deleting the rows of one test leaves none of them.
  pub find?-delete_where :
      (p q : A → Bool) (xs : List A) (x : A) → find? p (delete_where q xs) ≡ some x → q x ≡ false
  find?-delete_where p q [] x h = absurd (ground arith)
  find?-delete_where p q (y ∷ ys) x h = ground (arith, find?-delete_where p q ys x)

  -- A query is not changed by deleting rows that it does not ask for.
  pub find?-delete_others :
      (p q : A → Bool) (xs : List A)
      → ((x : A) → p x ≡ true → q x ≡ false)
      → find? p (delete_where q xs) ≡ find? p xs
  find?-delete_others p q [] apart = refl
  find?-delete_others p q (x ∷ xs) apart = ground (arith, apart x, find?-delete_others p q xs apart)

module _ {ℓ κ} {A : Type ℓ} where
  update_if-keeps : (P : A → Type κ) (b : Bool) (x y : A) → P x → P y → P (if b then y else x)
  update_if-keeps P true x y hx hy = hy
  update_if-keeps P false x y hx hy = hx

  pub All-update_where :
      (P : A → Type κ) (p : A → Bool) (u : A → A) (xs : List A)
      → ((x : A) → P x → P (u x))
      → All P xs
      → All P (update_where p u xs)
  All-update_where P p u [] keeps h = h
  All-update_where P p u (x ∷ xs) keeps h =
      (update_if-keeps P (p x) x (u x) h.0 (keeps x h.0), All-update_where P p u xs keeps h.1)

  delete_if-keeps :
      (P : A → Type κ) (b : Bool) (x : A) (xs : List A)
      → P x
      → All P xs
      → All P (if b then xs else x ∷ xs)
  delete_if-keeps P true x xs h hs = hs
  delete_if-keeps P false x xs h hs = (h, hs)

  pub All-delete_where :
      (P : A → Type κ) (p : A → Bool) (xs : List A) → All P xs → All P (delete_where p xs)
  All-delete_where P p [] h = h
  All-delete_where P p (x ∷ xs) h =
      delete_if-keeps P (p x) x (delete_where p xs) h.0 (All-delete_where P p xs h.1)
