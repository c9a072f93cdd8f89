-- ===== src/Tournament/Grants.antt =====
-- A grant of experience through the ledger (`_grant_xp` of
-- apps/api/services/tournament_reward_service.py), and its repetition.
use genjishimada.Base.{
  ℕ, ◌+◌, ◌*◌, ◌/◌, ◌≡◌, refl, sym, ◌∙◌, true, false, List, [], ◌∷◌, ◌++◌, ◌==◌, arith, Bool-cases,
  inl, inr, ◌⊎◌, ap,
}
use genjishimada.Base.Dict.{insert, contains, lookup-insert}
use genjishimada.Economy.Action.{Result, ok, err, foreign_key_violation}
use genjishimada.Economy.Lootbox.{XpGrantEvent}
use genjishimada.Economy.LootboxRepository.{fetch_xp_multiplier}
use genjishimada.Tournament.Tables.{Tournaments, Reason}
use genjishimada.Tournament.Repository.{has_keys}
use genjishimada.Tournament.Rewards.{after_claim, ledger_grant, grant_some}
use genjishimada.Tournament.Ledger.{Paid, Paid-refl, xp_of, claimed}

-- The tables after a grant that is new.
abbrev pub after_grant : ℕ → ℕ → ℕ → Reason → Tournaments → Tournaments
after_grant u x c r t = record t {
  economy = record t.economy {
    xp = insert u (xp_of u t + x * fetch_xp_multiplier t.economy / 100) t.economy.xp;
  };
  xp_grants = record { cycle_id = c; user_id = u; reason = r; amount = x } ∷ t.xp_grants;
}

after_grant-Paid :
    (u x c : ℕ) (r : Reason) (t : Tournaments)
    → claimed c u r t ≡ false
    → Paid t (after_grant u x c r t)
after_grant-Paid u x c r t fresh = record {
  unique = λ h. (fresh, h);
  kept = λ c' u' r' h. ground arith;
  categories = refl;
  completions = refl;
  has_keys_kept = λ c u h. h;
  multiplier = refl;
  balance = λ v.
      ground (
        arith,
        lookup-insert v u (xp_of u t + x * fetch_xp_multiplier t.economy / 100) t.economy.xp,
      );
}

-- The tables that a call leaves, or the old ones.
abbrev pub result_state : {A : Type 0} → Tournaments → Result (A × Tournaments) → Tournaments
result_state t (ok (a, t')) = t'
result_state t (err e) = t

ledger_grant_replayed :
    (u x c : ℕ) (r : Reason) (pending : List XpGrantEvent) (t : Tournaments)
    → claimed c u r t ≡ true
    → ledger_grant u x c r pending t ≡ ok (pending, t)
unfolding ledger_grant
ledger_grant_replayed u x c r pending t h = ground arith

-- The event of a grant.
abbrev pub grant_event : ℕ → ℕ → Tournaments → XpGrantEvent
grant_event u x t = record {
  user_id = u;
  amount = x;
  previous_amount = xp_of u t;
  new_amount = xp_of u t + x * fetch_xp_multiplier t.economy / 100;
}

after_claim_known :
    (u x : ℕ) (pending : List XpGrantEvent) (t : Tournaments)
    → contains u t.economy.users ≡ true
    → after_claim u x pending t
      ≡ ok (
        pending ++ (grant_event u x t ∷ []),
        record t {
          economy = record t.economy {
            xp = insert u (xp_of u t + x * fetch_xp_multiplier t.economy / 100) t.economy.xp;
          };
        },
      )
unfolding after_claim
after_claim_known u x pending t user = rw user refl

ledger_grant_new :
    (u x c : ℕ) (r : Reason) (pending : List XpGrantEvent) (t : Tournaments)
    → claimed c u r t ≡ false
    → contains c t.cycles ≡ true
    → contains u t.economy.users ≡ true
    → ledger_grant u x c r pending t
      ≡ ok (pending ++ (grant_event u x t ∷ []), after_grant u x c r t)
unfolding ledger_grant
ledger_grant_new u x c r pending t fresh cycle user =
    let rows = record { cycle_id = c; user_id = u; reason = r; amount = x } ∷ t.xp_grants in
    rw (fresh, cycle, user) (after_claim_known u x pending (record t { xp_grants = rows }) user)

ledger_grant_refused :
    (u x c : ℕ) (r : Reason) (pending : List XpGrantEvent) (t : Tournaments)
    → claimed c u r t ≡ false
    → has_keys c u t ≡ false
    → ledger_grant u x c r pending t ≡ err foreign_key_violation
unfolding ledger_grant
ledger_grant_refused u x c r pending t fresh missing = ground arith

-- A grant that succeeds has found its row claimed and done nothing, or is new.
pub ledger_grant_cases :
    (u x c : ℕ) (r : Reason) (pending evs : List XpGrantEvent) (t t' : Tournaments)
    → ledger_grant u x c r pending t ≡ ok (evs, t')
    → ((claimed c u r t ≡ true) × (t' ≡ t))
      ⊎ ((claimed c u r t ≡ false) × (t' ≡ after_grant u x c r t))
ledger_grant_cases u x c r pending evs t t' h = elim (Bool-cases (claimed c u r t)) [
  | inl again ↦ inl (
    again,
    sym (ap (λ o. result_state t o) (sym (ledger_grant_replayed u x c r pending t again) ∙ h)),
  )
  | inr fresh ↦ elim (Bool-cases (has_keys c u t)) [
    | inr missing ↦ cc (ledger_grant_refused u x c r pending t fresh missing)
    | inl keys ↦
        let new = ledger_grant_new u x c r pending t fresh (ground arith) (ground arith) in
        inr (fresh, sym (ap (λ o. result_state t o) (sym new ∙ h)))
  ]
]

ledger_grant-Paid :
    (u x c : ℕ) (r : Reason) (pending evs : List XpGrantEvent) (t t' : Tournaments)
    → ledger_grant u x c r pending t ≡ ok (evs, t')
    → Paid t t' × (claimed c u r t' ≡ true)
ledger_grant-Paid u x c r pending evs t t' h =
    elim (ledger_grant_cases u x c r pending evs t t' h) [
      | inl (again, e) ↦ rw e (Paid-refl t, again)
      | inr (fresh, e) ↦ rw e (after_grant-Paid u x c r t fresh, ground arith)
    ]

-- Every grant keeps the ledger, and claims its row unless the amount is 0.
pub grant_some-Paid :
    (u x c : ℕ) (r : Reason) (pending evs : List XpGrantEvent) (t t' : Tournaments)
    → grant_some u x c r pending t ≡ ok (evs, t')
    → Paid t t' × ((x == 0) ≡ false → claimed c u r t' ≡ true)
grant_some-Paid u x c r pending evs t t' h = elim (Bool-cases (x == 0)) [
  | inl nothing ↦ let same : t' ≡ t = ground arith in rw same (Paid-refl t, λ something. cc)
  | inr something ↦
      let (paid, row) = ledger_grant-Paid u x c r pending evs t t' (rw something at h) in
      (paid, λ _. row)
]

pub grant_some_replayed :
    (u x c : ℕ) (r : Reason) (pending : List XpGrantEvent) (t : Tournaments)
    → ((x == 0) ≡ false → claimed c u r t ≡ true)
    → grant_some u x c r pending t ≡ ok (pending, t)
grant_some_replayed u x c r pending t h = elim (Bool-cases (x == 0)) [
  | inl nothing ↦ rw nothing refl
  | inr something ↦ rw something (ledger_grant_replayed u x c r pending t (h something))
]

-- A grant does not touch the streaks.
pub grant_some-streaks :
    (u x c : ℕ) (r : Reason) (pending evs : List XpGrantEvent) (t t' : Tournaments)
    → grant_some u x c r pending t ≡ ok (evs, t')
    → t'.streaks ≡ t.streaks
grant_some-streaks u x c r pending evs t t' h = elim (Bool-cases (x == 0)) [
  | inl nothing ↦ ground arith
  | inr something ↦ elim (ledger_grant_cases u x c r pending evs t t' (rw something at h)) [
    | inl (again, e) ↦ rw e refl
    | inr (fresh, e) ↦ rw e refl
  ]
]
