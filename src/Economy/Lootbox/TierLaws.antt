-- ===== src/Economy/Lootbox/TierLaws.antt =====
-- The tiers of experience as digits of a mixed radix, and the distance to the next tier.
use genjishimada.Base.{◌⊎◌, ℕ, ◌+◌, ◌*◌, ◌≤◌, ◌<◌, ◌≡◌, ◌≢◌, true, false, arith}
use genjishimada.Economy.Lootbox.Tiers.{
  tier_of, next_tier, fetch_xp_tier_change, main_tier_rank_up, sub_tier_rank_up, no_change,
}

-- Prestige, main tier and sub tier are the digits of the experience: 10000 to a prestige level, 500
-- to a main tier and 100 to a sub tier, with less than 100 left over.
pub tier_of_digits :
    (xp : ℕ)
    → let t = tier_of xp in
      (t.main < 20)
      × (t.sub < 5)
      × (t.prestige * 10000 + t.main * 500 + t.sub * 100 ≤ xp)
      × (xp < t.prestige * 10000 + t.main * 500 + t.sub * 100 + 100)
unfolding tier_of
tier_of_digits xp = omega arith

-- The experience that the summary asks for is the least that changes the tier: with less the raw
-- tier, or the main tier and the prestige, stay, and with exactly that much the sub tier is the
-- one announced, and so is the main tier.
pub next_tier_reached :
    (xp more : ℕ)
    → let n = next_tier xp in
      let t = tier_of xp in
      ((n.next_sub_xp_required ≤ more) ⊎ ((tier_of (xp + more)).raw ≡ t.raw))
      × ((tier_of (xp + n.next_sub_xp_required)).sub ≡ n.next_sub)
      × ((n.next_main_xp_required ≤ more)
          ⊎ (((tier_of (xp + more)).main ≡ t.main) × ((tier_of (xp + more)).prestige ≡ t.prestige)))
      × ((tier_of (xp + n.next_main_xp_required)).main ≡ n.next_main)
unfolding next_tier tier_of
next_tier_reached xp more = omega arith

-- What the two answers about a change of experience mean.
abbrev pub ReportMeans : ℕ → ℕ → Type 0
ReportMeans old new =
    let o = tier_of old in
    let n = tier_of new in
    let (rank, prestige) = fetch_xp_tier_change old new in
    (((rank ≡ no_change) × (o.main ≡ n.main) × (o.sub ≡ n.sub))
      ⊎ ((rank ≡ sub_tier_rank_up) × (o.main ≡ n.main) × (o.sub ≢ n.sub))
      ⊎ ((rank ≡ main_tier_rank_up) × (o.main ≢ n.main)))
    × (((prestige ≡ false) × (o.prestige ≡ n.prestige))
        ⊎ ((prestige ≡ true) × (o.prestige ≢ n.prestige)))

-- A change of experience is reported as no rank up only if the main and the sub tier are the same,
-- as a sub tier rank up only if just the sub tier differs, as a main tier rank up only if the main
-- tier differs, and as a change of prestige exactly if the prestige levels differ.
pub fetch_xp_tier_change_sound : (old new : ℕ) → ReportMeans old new
unfolding fetch_xp_tier_change
fetch_xp_tier_change_sound old new = ground arith
