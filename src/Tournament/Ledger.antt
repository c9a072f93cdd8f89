-- ===== src/Tournament/Ledger.antt =====
-- The ledger of experience, tournaments.xp_grants: what every award keeps of it.
use genjishimada.Base.{
  ℕ, ◌+◌, ◌*◌, ◌/◌, ◌≡◌, refl, sym, ◌∙◌, Bool, true, false, ◌&&◌, List, [], ◌∷◌, ◌==◌, arith,
  get_or, if◌then◌else◌,
}
use genjishimada.Base.Dict.{lookup}
use genjishimada.Base.Lists.{any}
use genjishimada.Economy.LootboxRepository.{fetch_xp_multiplier}
use genjishimada.Tournament.Tables.{Tournaments, Reason, Grant}
use genjishimada.Tournament.Repository.{is_grant, has_keys}

-- No two rows of the ledger have the same cycle, user and reason.
abbrev pub UniqueGrants : List Grant → Type 0
UniqueGrants [] = Unit
UniqueGrants (g ∷ gs) = (any (is_grant g.cycle_id g.user_id g.reason) gs ≡ false) × UniqueGrants gs

-- The experience that the rows of a user stand for, each rounded down, at a multiplier.
abbrev pub earned : ℕ → ℕ → List Grant → ℕ
earned m u [] = 0
earned m u (g ∷ gs) = if u == g.user_id then g.amount * m / 100 + earned m u gs else earned m u gs

abbrev pub xp_of : ℕ → Tournaments → ℕ
xp_of u t = get_or (lookup u t.economy.xp) 0

abbrev pub claimed : ℕ → ℕ → Reason → Tournaments → Bool
claimed c u r t = any (is_grant c u r) t.xp_grants

-- What an award keeps: the ledger has no row twice, loses no row, categories and
-- completions stay, no cycle or user goes, and the experience of every user grows by what the new rows stand for.
pub record Paid (t t' : Tournaments) : Type 0 where
  pub unique : UniqueGrants t.xp_grants → UniqueGrants t'.xp_grants
  pub kept : (c u : ℕ) (r : Reason) → claimed c u r t ≡ true → claimed c u r t' ≡ true
  pub categories : t'.categories ≡ t.categories
  pub completions : t'.completions ≡ t.completions
  pub has_keys_kept : (c u : ℕ) → has_keys c u t ≡ true → has_keys c u t' ≡ true
  pub multiplier : fetch_xp_multiplier t'.economy ≡ fetch_xp_multiplier t.economy
  pub balance :
      (u : ℕ)
      → xp_of u t' + earned (fetch_xp_multiplier t.economy) u t.xp_grants
        ≡ xp_of u t + earned (fetch_xp_multiplier t.economy) u t'.xp_grants

pub Paid-refl : (t : Tournaments) → Paid t t
Paid-refl t = record {
  unique = λ h. h;
  kept = λ c u r h. h;
  categories = refl;
  completions = refl;
  has_keys_kept = λ c u h. h;
  multiplier = refl;
  balance = λ u. refl;
}

pub Paid-trans : {t t' t'' : Tournaments} → Paid t t' → Paid t' t'' → Paid t t''
Paid-trans {t} {t'} {t''} p q = record {
  unique = λ h. q.unique (p.unique h);
  kept = λ c u r h. q.kept c u r (p.kept c u r h);
  categories = q.categories ∙ p.categories;
  completions = q.completions ∙ p.completions;
  has_keys_kept = λ c u h. q.has_keys_kept c u (p.has_keys_kept c u h);
  multiplier = q.multiplier ∙ p.multiplier;
  balance = λ u.
      let later : xp_of u t'' + earned (fetch_xp_multiplier t.economy) u t'.xp_grants
          ≡ xp_of u t' + earned (fetch_xp_multiplier t.economy) u t''.xp_grants =
        rw (sym p.multiplier) (q.balance u) in
      omega (arith, p.balance u, later);
}

-- What the ledger and the experience are after calls that keep them: no row twice, every row of
-- before still there, and the experience of every user larger by what the new rows stand for.
abbrev pub LedgerKept : Tournaments → Tournaments → Type 0
LedgerKept t t' =
    UniqueGrants t'.xp_grants
    × ((c u : ℕ) (r : Reason) → (claimed c u r t && claimed c u r t') ≡ claimed c u r t)
    × ((u : ℕ)
        → xp_of u t' + earned (fetch_xp_multiplier t.economy) u t.xp_grants
          ≡ xp_of u t + earned (fetch_xp_multiplier t.economy) u t'.xp_grants)

and_kept : (a b : Bool) → (a ≡ true → b ≡ true) → (a && b) ≡ a
and_kept true b h = h refl
and_kept false b h = refl

pub Paid-LedgerKept : {t t' : Tournaments} → Paid t t' → UniqueGrants t.xp_grants → LedgerKept t t'
Paid-LedgerKept {t} {t'} p h =
    (p.unique h, λ c u r. and_kept (claimed c u r t) (claimed c u r t') (p.kept c u r), p.balance)
