-- ===== src/Auth/LimitTests.antt =====
-- Instances of the theorems about sequences of requests.
use genjishimada.Base.{ℕ, ◌≡◌, ◌≢◌, refl, ◌≤◌, some, List, [], ◌∷◌, arith}
use genjishimada.Base.Text.{Text, codes, lower}
use genjishimada.Auth.Action.{returned}
use genjishimada.Auth.Limits.{check_rate_limit, check_client_ip, rate_limits_for}
use genjishimada.Auth.Runs.{Request, registers, logs_in, requests_reset, run, InOrder}
use genjishimada.Auth.Answers.{made, rate_limits_hold}
use genjishimada.Auth.Lockouts.{check_client_ip_passes, check_rate_limit_lifts}
use genjishimada.Auth.Invariant.{Wf}
use genjishimada.Auth.Reachable.{run-Wf}
use genjishimada.Auth.Samples.{marks, nobody, ada, ada_again}

-- Ada registers, logs in twice and asks for a reset, all from one address.
abbrev address : Text
address = codes "10.0.0.7"

abbrev events : List (ℕ × Request)
events =
    (100, registers [] (codes "link") ada (some address))
    ∷ (200, logs_in ada_again (some address))
    ∷ (210, logs_in ada_again (some address))
    ∷ (220, requests_reset (codes "reset") (codes "Ada@genji.io") (some address))
    ∷ []

events-InOrder : InOrder 0 events
events-InOrder = (omega arith, (omega arith, (omega arith, (omega arith, tt))))

rate_limits_hold_example :
    made marks (codes "ada@genji.io") (codes "login") 230 900 events nobody ≤ 10
unfolding rate_limits_for
rate_limits_hold_example =
    rate_limits_hold marks 0 events nobody (codes "ada@genji.io") (codes "login") 10 900 230 refl
      events-InOrder refl (omega arith)

ada_is_no_address : lower (lower (codes "Ada@genji.io")) ≢ lower address
unfolding lower
ada_is_no_address e = ground arith

ada_again_is_no_address : lower (lower (codes "ada@GENJI.io")) ≢ lower address
unfolding lower
ada_again_is_no_address e = ground arith

check_client_ip_passes_example :
    check_client_ip 230 (some address) (codes "login") (run marks events nobody)
    ≡ returned tt (run marks events nobody)
check_client_ip_passes_example =
    check_client_ip_passes marks events nobody address (codes "login") 230 refl (
      ada_is_no_address,
      (ada_again_is_no_address, (ada_again_is_no_address, (ada_is_no_address, tt))),
    )

check_rate_limit_lifts_example :
    check_rate_limit 3820 (codes "ada@genji.io") (codes "login") (run marks events nobody)
    ≡ returned tt (run marks events nobody)
check_rate_limit_lifts_example =
    check_rate_limit_lifts marks 0 events nobody (codes "ada@genji.io") (codes "login") 3820 refl
      events-InOrder (omega arith)

nobody-Wf : Wf nobody
nobody-Wf = (tt, tt, λ u k. omega arith)

run-Wf_example : Wf (run marks events nobody)
run-Wf_example = run-Wf marks events nobody nobody-Wf
