-- ===== src/Tournament/Placements.antt =====
-- What the awards for taking part and for a place do, and a second delivery of them
-- (apps/api/services/tournament_reward_service.py).
use genjishimada.Base.{
  Bool-cases, inl, inr, ◌||◌, ℕ, ◌≡◌, refl, ap, arith, true, false, List, [], ◌∷◌, ◌==◌, get_or,
}
use genjishimada.Base.Dict.{Dict, lookup}
use genjishimada.Base.Lists.{All}
use genjishimada.Economy.Action.{ok}
use genjishimada.Economy.Lootbox.{XpGrantEvent}
use genjishimada.Tournament.Tables.{Tournaments, Reason, Standing, CycleCompleted}
use genjishimada.Tournament.Action.{bind_ok}
use genjishimada.Tournament.Repository.{fetch_category}
use genjishimada.Tournament.Rewards.{
  participation_xp_of, placement_tiers, grant_some, award_participation, award_places,
  award_cycle_placements,
}
use genjishimada.Tournament.Ledger.{
  UniqueGrants, LedgerKept, Paid-LedgerKept, Paid, Paid-refl, Paid-trans, claimed,
}
use genjishimada.Tournament.Grants.{grant_some-Paid, grant_some_replayed}

-- The experience of a rank, 0 where no tier names it.
abbrev pub prize : Dict ℕ → Standing → ℕ
prize tiers s = get_or (lookup s.rank tiers) 0

-- Every standing with a prize has its row in the ledger.
abbrev pub PlacesPaid : Dict ℕ → ℕ → Tournaments → List Standing → Type 0
PlacesPaid tiers c t ss =
    All
      (λ (s : Standing).
        (prize tiers s == 0) ≡ false → claimed c s.user_id Reason.placement t ≡ true)
      ss

award_places-Paid :
    (tiers : Dict ℕ) (c : ℕ) (ss : List Standing) (pending evs : List XpGrantEvent)
    (t t' : Tournaments)
    → award_places tiers c ss pending t ≡ ok (evs, t')
    → Paid t t' × PlacesPaid tiers c t' ss
unfolding award_places
award_places-Paid tiers c [] pending evs t t' h =
    let same : t' ≡ t = ground arith in rw same (Paid-refl t, tt)
award_places-Paid tiers c (s ∷ ss) pending evs t t' h =
    let (pending', t1, first, rest) =
      bind_ok (grant_some s.user_id (prize tiers s) c Reason.placement pending)
        (award_places tiers c ss) evs t t' h in
    let (paid, row) =
      grant_some-Paid s.user_id (prize tiers s) c Reason.placement pending pending' t t1 first in
    let (later, rows) = award_places-Paid tiers c ss pending' evs t1 t' rest in
    (
      Paid-trans paid later,
      (λ some_prize. later.kept c s.user_id Reason.placement (row some_prize), rows),
    )

award_places_replayed :
    (tiers : Dict ℕ) (c : ℕ) (ss : List Standing) (pending : List XpGrantEvent) (t : Tournaments)
    → PlacesPaid tiers c t ss
    → award_places tiers c ss pending t ≡ ok (pending, t)
unfolding award_places
award_places_replayed tiers c [] pending t h = refl
award_places_replayed tiers c (s ∷ ss) pending t (first, rest) =
    rw (grant_some_replayed s.user_id (prize tiers s) c Reason.placement pending t first)
      (award_places_replayed tiers c ss pending t rest)

pub award_cycle_placements-Paid :
    (e : CycleCompleted) (evs : List XpGrantEvent) (t t' : Tournaments)
    → award_cycle_placements e t ≡ ok (evs, t')
    → Paid t t'
      × PlacesPaid (placement_tiers (fetch_category e.category_id t)) e.cycle_id t' e.standings
unfolding award_cycle_placements
award_cycle_placements-Paid e evs t t' h =
    award_places-Paid (placement_tiers (fetch_category e.category_id t)) e.cycle_id e.standings []
      evs t t' h

-- A second delivery of a finished cycle grants nothing: it leaves the tables as the first one left
-- them, and no event to publish.
pub award_cycle_placements_once :
    (e : CycleCompleted) (evs : List XpGrantEvent) (t t' : Tournaments)
    → award_cycle_placements e t ≡ ok (evs, t')
    → award_cycle_placements e t' ≡ ok ([], t')
unfolding award_cycle_placements
award_cycle_placements_once e evs t t' h =
    let (paid, rows) = award_cycle_placements-Paid e evs t t' h in
    rw (ap (λ d. placement_tiers (lookup e.category_id d)) paid.categories) (
      award_places_replayed (placement_tiers (fetch_category e.category_id t)) e.cycle_id
        e.standings [] t' rows)

-- A second award for taking part, of the same user in the same cycle, grants nothing.
pub award_participation_once :
    (c k u : ℕ) (evs : List XpGrantEvent) (t t' : Tournaments)
    → award_participation c k u t ≡ ok (evs, t')
    → award_participation c k u t' ≡ ok ([], t')
unfolding award_participation
award_participation_once c k u evs t t' h =
    let x = participation_xp_of (fetch_category k t) in
    let (paid, row) = grant_some-Paid u x c Reason.participation [] evs t t' h in
    rw (ap (λ d. participation_xp_of (lookup k d)) paid.categories)
      (grant_some_replayed u x c Reason.participation [] t' row)

-- Every standing either has no prize or has its row in the ledger.
abbrev pub PrizesClaimed : Dict ℕ → ℕ → Tournaments → List Standing → Type 0
PrizesClaimed tiers c t ss =
    All (λ (s : Standing). ((prize tiers s == 0) || claimed c s.user_id Reason.placement t) ≡ true)
      ss

PlacesPaid-PrizesClaimed :
    (tiers : Dict ℕ) (c : ℕ) (t : Tournaments) (ss : List Standing)
    → PlacesPaid tiers c t ss
    → PrizesClaimed tiers c t ss
PlacesPaid-PrizesClaimed tiers c t [] h = tt
PlacesPaid-PrizesClaimed tiers c t (s ∷ ss) (p, ps) = elim (Bool-cases (prize tiers s == 0)) [
  | inl nothing ↦ (rw nothing refl, PlacesPaid-PrizesClaimed tiers c t ss ps)
  | inr some_prize ↦ (ground (arith, p some_prize), PlacesPaid-PrizesClaimed tiers c t ss ps)
]

-- After an award of placements every standing whose rank has a prize is in the ledger. The award
-- keeps the ledger: where no row was there twice none is, no row is lost, and every user's
-- experience grows by exactly what the new rows stand for.
pub award_cycle_placements-LedgerKept :
    (e : CycleCompleted) (evs : List XpGrantEvent) (t t' : Tournaments)
    → UniqueGrants t.xp_grants
    → award_cycle_placements e t ≡ ok (evs, t')
    → LedgerKept t t'
      × PrizesClaimed (placement_tiers (fetch_category e.category_id t)) e.cycle_id t' e.standings
award_cycle_placements-LedgerKept e evs t t' unique h =
    let (paid, rows) = award_cycle_placements-Paid e evs t t' h in
    (
      Paid-LedgerKept paid unique,
      PlacesPaid-PrizesClaimed (placement_tiers (fetch_category e.category_id t)) e.cycle_id t'
          e.standings rows,
    )
