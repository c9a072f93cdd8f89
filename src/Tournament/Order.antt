-- ===== src/Tournament/Order.antt =====
-- The order of a leaderboard (`fetch_leaderboard` of
-- apps/api/repository/tournaments_repository.py), and sorting by it.
use genjishimada.Base.{ℕ, ◌≡◌, refl, arith, true, false, some, List, [], ◌∷◌, Bool-cases, inl, inr}
use genjishimada.Base.Lists.{All}
use genjishimada.Tournament.Tables.{Completion}
use genjishimada.Tournament.Leaderboard.{lex_leb, leads, order_key, insert_run, in_order}

lex_leb_refl : (xs : List ℕ) → lex_leb xs xs ≡ true
lex_leb_refl [] = refl
lex_leb_refl (x ∷ xs) = ground (arith, lex_leb_refl xs)

lex_leb_trans :
    (xs ys zs : List ℕ) → lex_leb xs ys ≡ true → lex_leb ys zs ≡ true → lex_leb xs zs ≡ true
lex_leb_trans [] ys zs p q = refl
lex_leb_trans (x ∷ xs) [] zs p q = cc
lex_leb_trans (x ∷ xs) (y ∷ ys) [] p q = cc
lex_leb_trans (x ∷ xs) (y ∷ ys) (z ∷ zs) p q = ground (arith, lex_leb_trans xs ys zs)

lex_leb_total : (xs ys : List ℕ) → lex_leb xs ys ≡ false → lex_leb ys xs ≡ true
lex_leb_total [] ys h = cc
lex_leb_total (x ∷ xs) [] h = refl
lex_leb_total (x ∷ xs) (y ∷ ys) h = ground (arith, lex_leb_total xs ys)

pub leads_refl : (a : Completion) → leads a a ≡ true
unfolding leads
leads_refl a = lex_leb_refl (order_key a)

pub some_injective : (a b : Completion) → some a ≡ some b → a ≡ b
some_injective a b h = ground arith

pub leads_trans : (a b c : Completion) → leads a b ≡ true → leads b c ≡ true → leads a c ≡ true
unfolding leads
leads_trans a b c p q = lex_leb_trans (order_key a) (order_key b) (order_key c) p q

pub leads_total : (a b : Completion) → leads a b ≡ false → leads b a ≡ true
unfolding leads
leads_total a b h = lex_leb_total (order_key a) (order_key b) h

-- A list whose first run leads all the others.
abbrev pub Led : List Completion → Type 0
Led [] = Unit
Led (x ∷ xs) = All (λ y. leads x y ≡ true) xs

All-insert_run :
    (P : Completion → Type 0) (x : Completion) (xs : List Completion)
    → P x
    → All P xs
    → All P (insert_run x xs)
All-insert_run P x [] p ps = (p, tt)
All-insert_run P x (y ∷ ys) p (q, qs) = elim (Bool-cases (leads x y)) [
  | inl first ↦ rw first (p, (q, qs))
  | inr later ↦ rw later (q, All-insert_run P x ys p qs)
]

pub All-in_order : (P : Completion → Type 0) (xs : List Completion) → All P xs → All P (in_order xs)
All-in_order P [] h = tt
All-in_order P (x ∷ xs) (p, ps) = All-insert_run P x (in_order xs) p (All-in_order P xs ps)

All-leads :
    (x y : Completion) (ys : List Completion)
    → leads x y ≡ true
    → All (λ z. leads y z ≡ true) ys
    → All (λ z. leads x z ≡ true) ys
All-leads x y [] p h = tt
All-leads x y (z ∷ zs) p (q, qs) = (leads_trans x y z p q, All-leads x y zs p qs)

Led-insert_run : (x : Completion) (xs : List Completion) → Led xs → Led (insert_run x xs)
Led-insert_run x [] h = tt
Led-insert_run x (y ∷ ys) h = elim (Bool-cases (leads x y)) [
  | inl first ↦ rw first (first, All-leads x y ys first h)
  | inr later ↦ rw later (All-insert_run (λ z. leads y z ≡ true) x ys (leads_total x y later) h)
]

Led-in_order : (xs : List Completion) → Led (in_order xs)
Led-in_order [] = tt
Led-in_order (x ∷ xs) = Led-insert_run x (in_order xs) (Led-in_order xs)

Led-tail :
    (w : Completion) (ws ys : List Completion)
    → ys ≡ w ∷ ws
    → Led ys
    → All (λ (y : Completion). leads w y ≡ true) ws
Led-tail w ws ys e h = rw e at h

-- The run at the head of the order leads every run of it.
pub in_order-head :
    (w : Completion) (ws xs : List Completion)
    → in_order xs ≡ w ∷ ws
    → All (λ (y : Completion). leads w y ≡ true) (in_order xs)
in_order-head w ws xs h = rw h (leads_refl w, Led-tail w ws (in_order xs) h (Led-in_order xs))

All-uninsert :
    (P : Completion → Type 0) (x : Completion) (xs : List Completion)
    → All P (insert_run x xs)
    → P x × All P xs
All-uninsert P x [] (p, _) = (p, tt)
All-uninsert P x (y ∷ ys) h = elim (Bool-cases (leads x y)) [
  | inl first ↦ rw first at h
  | inr later ↦
      let (q, rest) : P y × All P (insert_run x ys) = rw later at h in
      let (p, qs) = All-uninsert P x ys rest in (p, (q, qs))
]

pub All-unordered :
    (P : Completion → Type 0) (xs : List Completion) → All P (in_order xs) → All P xs
All-unordered P [] h = tt
All-unordered P (x ∷ xs) h =
    let (p, ps) = All-uninsert P x (in_order xs) h in (p, All-unordered P xs ps)
