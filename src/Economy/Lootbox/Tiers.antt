-- ===== src/Economy/Lootbox/Tiers.antt =====
-- The tier arithmetic of `fetch_xp_tier_change` and `fetch_user_xp_summary` in
-- apps/api/repository/lootbox_repository.py: 100 points to a step, 5 steps to a main tier, 20 main
-- tiers to a prestige level.
use genjishimada.Base.{ℕ, ◌+◌, ◌-◌, ◌*◌, ◌/◌, ◌%◌, Bool, not, ◌==◌, if◌then◌else◌}

-- The columns that both statements compute from an amount of experience.
pub record Tier : Type 0 where
  pub raw : ℕ
  pub normalized : ℕ
  pub prestige : ℕ
  pub main : ℕ
  pub sub : ℕ

unfoldable pub tier_of : ℕ → Tier
tier_of xp = record {
  raw = xp / 100;
  normalized = (xp / 100) % 100;
  prestige = xp / 100 / 100;
  main = (xp / 100) % 100 / 5;
  sub = (xp / 100) % 5;
}

pub data RankChange : Type 0 where
  main_tier_rank_up sub_tier_rank_up no_change : RankChange

-- `fetch_xp_tier_change`: tiers have distinct names, so names are compared by their thresholds.
unfoldable pub fetch_xp_tier_change : ℕ → ℕ → RankChange × Bool
unfolding tier_of
fetch_xp_tier_change old new =
    let o = tier_of old in
    let n = tier_of new in
    (
      if not (o.main == n.main)
          then main_tier_rank_up
          else if not (o.sub == n.sub)
          then sub_tier_rank_up
          else no_change,
      not (o.prestige == n.prestige),
    )

-- The part of `fetch_user_xp_summary` that looks ahead.
pub record NextTier : Type 0 where
  pub next_main : ℕ
  pub next_sub : ℕ
  pub next_sub_xp_required : ℕ
  pub next_sub_xp_total : ℕ
  pub next_main_xp_required : ℕ
  pub next_main_xp_total : ℕ

unfoldable pub next_tier : ℕ → NextTier
unfolding tier_of
next_tier xp =
    let c = tier_of xp in
    record {
      next_main = (c.normalized / 5 + 1) % 20;
      next_sub = (c.raw + 1) % 5;
      next_sub_xp_required = (c.raw + 1) * 100 - xp;
      next_sub_xp_total = (c.raw + 1) * 100;
      next_main_xp_required = ((c.normalized / 5 + 1) * 5 + c.prestige * 100) * 100 - xp;
      next_main_xp_total = ((c.normalized / 5 + 1) * 5 + c.prestige * 100) * 100;
    }
