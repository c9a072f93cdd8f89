-- ===== src/Auth/Limits.antt =====
-- The limits on attempts of apps/api/services/auth_service.py. `wall` is the service's clock.
use genjishimada.Base.{ℕ, Option, none, some, [], ◌∷◌, leb, if◌then◌else◌}
use genjishimada.Base.Text.{Text, codes, text_eq}
use genjishimada.Auth.Action.{Action, rate_limit_exceeded, pure, gets, raise_if, ◌>>=◌}
use genjishimada.Auth.Repository.{fetch_rate_limit_count}

-- `RATE_LIMITS`: the attempts allowed, and the length of the window in seconds.
unfoldable pub rate_limits_for : Text → Option (ℕ × ℕ)
rate_limits_for action =
    if text_eq action (codes "register")
    then some (5, 3600)
    else if text_eq action (codes "login")
    then some (10, 900)
    else if text_eq action (codes "password_reset")
    then some (3, 3600)
    else if text_eq action (codes "verification_resend")
    then some (3, 3600)
    else none

-- `check_rate_limit`
unfoldable pub check_rate_limit : ℕ → Text → Text → Action (Unit {0})
check_rate_limit wall identifier action = elim (rate_limits_for action) [
  | none ↦ pure tt
  | some (max_attempts, window) ↦ do
    count ← gets (fetch_rate_limit_count identifier action wall window)
    raise_if (leb max_attempts count) (rate_limit_exceeded action)
]

-- `if client_ip: …`, where an empty text counts as none.
abbrev pub check_client_ip : ℕ → Option Text → Text → Action (Unit {0})
check_client_ip wall none action = pure tt
check_client_ip wall (some []) action = pure tt
check_client_ip wall (some (c ∷ ip)) action = check_rate_limit wall (c ∷ ip) action
