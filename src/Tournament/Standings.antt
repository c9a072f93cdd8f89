-- ===== src/Tournament/Standings.antt =====
-- The best run of each user (`fetch_leaderboard` of
-- apps/api/repository/tournaments_repository.py) and the other runs of that user.
use genjishimada.Base.{
  ℕ, ◌≡◌, refl, sym, arith, true, Option, none, some, List, [], ◌∷◌, ◌==◌, Bool-cases, inl, inr,
}
use genjishimada.Base.Dict.{Dict, lookup, insert, lookup-insert, lookup-insert_self}
use genjishimada.Base.Lists.{All}
use genjishimada.Tournament.Tables.{Completion}
use genjishimada.Tournament.Leaderboard.{leads, better_run, best_per_user, values}
use genjishimada.Tournament.Order.{leads_refl, some_injective, leads_trans, leads_total}

-- Some run of a table, under the number of its user, leads a run.
abbrev pub Beaten : Dict Completion → Completion → Type 0
Beaten d x = (b : Completion) × (lookup x.user_id d ≡ some b) × (leads b x ≡ true)

better_run-leads :
    (x y : Completion) (o : Option Completion)
    → (leads (better_run x o) x ≡ true)
      × ((b : Completion) → o ≡ some b → leads b y ≡ true → leads (better_run x o) y ≡ true)
better_run-leads x y none = (leads_refl x, λ b h lead. cc)
better_run-leads x y (some z) = elim (Bool-cases (leads x z)) [
  | inl ahead ↦ rw ahead (
    leads_refl x,
    λ b h lead.
        let lead' : leads z y ≡ true = rw (some_injective z b h) lead in
        leads_trans x z y ahead lead',
  )
  | inr behind ↦ rw behind (leads_total x z behind, λ b h lead. rw (some_injective z b h) lead)
]

Beaten-better :
    (x y : Completion) (d : Dict Completion)
    → Beaten d y
    → Beaten (insert x.user_id (better_run x (lookup x.user_id d)) d) y
Beaten-better x y d (b, found, lead) = elim (Bool-cases (x.user_id == y.user_id)) [
  | inl same ↦
      let eq : x.user_id ≡ y.user_id = ground arith in
      let best = better_run x (lookup x.user_id d) in
      (
        best,
        ground (arith, lookup-insert y.user_id x.user_id best d),
        (better_run-leads x y (lookup x.user_id d)).1 b (rw eq found) lead,
      )
  | inr other ↦ (
    b,
    ground (arith, found, lookup-insert y.user_id x.user_id (better_run x (lookup x.user_id d)) d),
    lead,
  )
]

Beaten-new :
    (x : Completion) (d : Dict Completion)
    → Beaten (insert x.user_id (better_run x (lookup x.user_id d)) d) x
Beaten-new x d = (
  better_run x (lookup x.user_id d),
  lookup-insert_self x.user_id (better_run x (lookup x.user_id d)) d,
  (better_run-leads x x (lookup x.user_id d)).0,
)

-- Every run of the cycle is led by the run of its user in a table.
abbrev pub AllBeaten : ℕ → Dict Completion → List Completion → Type 0
AllBeaten c d ys = All (λ (y : Completion). (c == y.cycle_id) ≡ true → Beaten d y) ys

AllBeaten-better :
    (c : ℕ) (x : Completion) (d : Dict Completion) (ys : List Completion)
    → AllBeaten c d ys
    → AllBeaten c (insert x.user_id (better_run x (lookup x.user_id d)) d) ys
AllBeaten-better c x d [] h = tt
AllBeaten-better c x d (y ∷ ys) (p, ps) =
    (λ h. Beaten-better x y d (p h), AllBeaten-better c x d ys ps)

AllBeaten-same :
    (c : ℕ) (d d' : Dict Completion) (ys : List Completion)
    → d' ≡ d
    → AllBeaten c d ys
    → AllBeaten c d' ys
AllBeaten-same c d d' ys e h = rw e h

pub best_per_user-AllBeaten : (c : ℕ) (xs : List Completion) → AllBeaten c (best_per_user c xs) xs
best_per_user-AllBeaten c [] = tt
best_per_user-AllBeaten c (x ∷ xs) =
    let d = best_per_user c xs in
    let before = best_per_user-AllBeaten c xs in
    elim (Bool-cases (c == x.cycle_id)) [
      | inl here ↦
          let d' = insert x.user_id (better_run x (lookup x.user_id d)) d in
          AllBeaten-same c d' (best_per_user c (x ∷ xs)) (x ∷ xs) (rw here refl)
            (λ _. Beaten-new x d, AllBeaten-better c x d xs before)
      | inr elsewhere ↦
          AllBeaten-same c d (best_per_user c (x ∷ xs)) (x ∷ xs) (rw elsewhere refl)
            (λ h. absurd (ground (arith, elsewhere, h)), before)
    ]

pub All-values :
    (P : Completion → Type 0) (k : ℕ) (b : Completion) (d : Dict Completion)
    → lookup k d ≡ some b
    → All P (values d)
    → P b
All-values P k b [] h ps = cc
All-values P k b (e ∷ d) h (p, ps) = elim (Bool-cases (k == e.0)) [
  | inl same ↦ rw (sym (some_injective (e.1) b (rw same at h))) p
  | inr other ↦ All-values P k b d (rw other at h) ps
]

pub All-beaten_by :
    (c : ℕ) (w : Completion) (d : Dict Completion) (xs : List Completion)
    → All (λ (b : Completion). leads w b ≡ true) (values d)
    → AllBeaten c d xs
    → All (λ (x : Completion). (c == x.cycle_id) ≡ true → leads w x ≡ true) xs
All-beaten_by c w d [] h ps = tt
All-beaten_by c w d (x ∷ xs) h (p, ps) = (
  λ here.
      let (b, found, lead) = p here in
      leads_trans w b x (All-values (λ b. leads w b ≡ true) x.user_id b d found h) lead,
  All-beaten_by c w d xs h ps,
)
