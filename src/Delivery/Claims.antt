-- ===== src/Delivery/Claims.antt =====
-- What a claim of apps/api/repository/jobs_repository.py does to the deliveries that follow.
use genjishimada.Base.{
  ℕ, ◌≡◌, refl, sym, ◌∙◌, Bool, true, false, Option, none, some, List, [], ◌∷◌, arith, Bool-cases,
  Option-cases, inl, inr,
}
use genjishimada.Base.Outcome.{Outcome, returned, raised, state_of}
use genjishimada.Base.Rows.{delete_where}
use genjishimada.Base.Text.{Text, text_eq, text_eq_refl, text_eq_iff}
use genjishimada.Delivery.Jobs.{Message, is_given}
use genjishimada.Delivery.Queue.{
  Consumer, ConsumerError, is_claimed, claim_idempotency, delete_claimed_idempotency, consume,
  handle_once, handle_claimed, handle_event, count_drained, settle, deliver, deliver_all,
  call_handler,
}

claimed_others :
    (k key : Text) (claims : List Text)
    → text_eq key k ≡ false
    → is_claimed k claims ≡ true
    → is_claimed k (delete_where (text_eq key) claims) ≡ true
claimed_others k key [] apart claimed = claimed
claimed_others k key (c ∷ claims) apart claimed = ground (
  arith,
  text_eq_iff k c,
  text_eq_iff key c,
  text_eq_iff key k,
  claimed_others k key claims apart,
)

claimed_differ :
    (k key : Text) (claims : List Text)
    → is_claimed key claims ≡ false
    → is_claimed k claims ≡ true
    → text_eq key k ≡ false
claimed_differ k key [] free claimed = ground arith
claimed_differ k key (c ∷ claims) free claimed =
    ground
      (arith, text_eq_iff k c, text_eq_iff key c, text_eq_iff key k, claimed_differ k key claims)

module _ {W E : Type 0} (decode : Text → Option E) (fn : E → W → Bool × W)
    (released : Text → W → Bool) where
  call_handler_keeps :
      (event : E) (s : Consumer W)
      → (state_of (call_handler decode fn released event s)).claims ≡ s.claims
  call_handler_keeps event s = elim (Bool-cases (fn event s.world).0) [
    | inl fine ↦ simp (fine)
    | inr broken ↦ simp (broken)
  ]

  release_keeps :
      (k key : Text) (event : E) (s : Consumer W)
      → text_eq key k ≡ false
      → is_claimed k s.claims ≡ true
      → is_claimed k
          (state_of (
            handle_claimed decode fn released key event true
              (record s { claims = key ∷ s.claims }))).claims
        ≡ true
  unfolding delete_claimed_idempotency
  release_keeps k key event s apart claimed = elim (Bool-cases (fn event s.world).0) [
    | inl fine ↦ ground (arith, fine)
    | inr broken ↦ ground (arith, broken, text_eq_refl key, claimed_others k key s.claims)
  ]

  handle_once_keeps :
      (k : Text) (id : Option Text) (event : E) (s : Consumer W)
      → is_claimed k s.claims ≡ true
      → is_claimed k (state_of (handle_once decode fn released id event s)).claims ≡ true
  unfolding claim_idempotency
  handle_once_keeps k none event s claimed = rw (call_handler_keeps event s) claimed
  handle_once_keeps k (some []) event s claimed = rw (call_handler_keeps event s) claimed
  handle_once_keeps k (some (c ∷ key)) event s claimed =
      elim (Bool-cases (is_claimed (c ∷ key) s.claims)) [
        | inl taken ↦ simp (taken, claimed)
        | inr free ↦ rw (free) (
            release_keeps k (c ∷ key) event s (claimed_differ k (c ∷ key) s.claims free claimed)
              claimed)
      ]

  consume_keeps :
      (k : Text) (idempotent : Bool) (m : Message) (s : Consumer W)
      → is_claimed k s.claims ≡ true
      → is_claimed k (state_of (consume decode fn released idempotent m s)).claims ≡ true
  unfolding consume
  consume_keeps k idempotent m s claimed = elim (Bool-cases m.is_pytest) [
    | inl skipped ↦ rw (skipped) claimed
    | inr handled ↦ rw (handled) (event_keeps (decode m.body) idempotent)
  ]
    where
      event_keeps :
          (event : Option E) (idempotent : Bool)
          → is_claimed k
              (state_of (handle_event decode fn released idempotent m.message_id event s)).claims
            ≡ true
      event_keeps none idempotent = claimed
      event_keeps (some event) true = handle_once_keeps k m.message_id event s claimed
      event_keeps (some event) false = rw (call_handler_keeps event s) claimed

  count_drained_keeps : (s : Consumer W) → (count_drained decode fn released s).claims ≡ s.claims
  count_drained_keeps s = ground arith

  pub deliver_all_keeps :
      (k : Text) (idempotent : Bool) (ms : List Message) (s : Consumer W)
      → is_claimed k s.claims ≡ true
      → is_claimed k (deliver_all decode fn released idempotent ms s).claims ≡ true
  unfolding deliver
  deliver_all_keeps k idempotent [] s claimed = claimed
  deliver_all_keeps k idempotent (m ∷ ms) s claimed =
      deliver_all_keeps k idempotent ms (deliver decode fn released idempotent m s) (
        settled (consume decode fn released idempotent m s)
          (consume_keeps k idempotent m s claimed))
    where
      settled :
          (o : Outcome (Consumer W) ConsumerError (Unit {0}))
          → is_claimed k (state_of o).claims ≡ true
          → is_claimed k (settle decode fn released m o).claims ≡ true
      settled (returned _ s) claimed = rw (count_drained_keeps s) claimed
      settled (raised e s) claimed = claimed

  handled_claims :
      (key : Text) (event : E) (s s1 : Consumer W)
      → handle_once decode fn released (some key) event s ≡ returned tt s1
      → is_given (some key) ≡ true
      → is_claimed key s1.claims ≡ true
  unfolding claim_idempotency
  handled_claims [] event s s1 done given = ground arith
  handled_claims (c ∷ key) event s s1 done given =
      elim (Bool-cases (is_claimed (c ∷ key) s.claims)) [
        | inl taken ↦ ground (arith, taken, done)
        | inr free ↦ elim (Bool-cases (fn event s.world).0) [
          | inl fine ↦ ground (arith, free, fine, done, text_eq_refl (c ∷ key))
          | inr broken ↦ ground (arith, free, broken, done)
        ]
      ]

  pub consume_event :
      (id : Option Text) (m : Message) (event : E) (s : Consumer W)
      → m.message_id ≡ id
      → m.is_pytest ≡ false
      → decode m.body ≡ some event
      → consume decode fn released true m s ≡ handle_once decode fn released id event s
  unfolding consume
  consume_event id m event s has_id real good = rw (real, good, has_id) refl

  pub returned_claims :
      (c : ℕ) (k : Text) (m : Message) (s s1 : Consumer W)
      → m.message_id ≡ some (c ∷ k)
      → m.is_pytest ≡ false
      → consume decode fn released true m s ≡ returned tt s1
      → is_claimed (c ∷ k) s1.claims ≡ true
  unfolding consume claim_idempotency
  returned_claims c k m s s1 has_key real done = elim (Option-cases (decode m.body)) [
    | inl bad ↦ ground (arith, real, bad, done)
    | inr (event, good) ↦
        handled_claims (c ∷ k) event s s1
          (sym (consume_event (some (c ∷ k)) m event s has_key real good) ∙ done) refl
  ]

  pub claimed_ignored :
      (c : ℕ) (k : Text) (m : Message) (s : Consumer W)
      → m.message_id ≡ some (c ∷ k)
      → is_claimed (c ∷ k) s.claims ≡ true
      → state_of (consume decode fn released true m s) ≡ s
  unfolding consume claim_idempotency
  claimed_ignored c k m s has_key claimed = elim (Bool-cases m.is_pytest) [
    | inl skipped ↦ rw (skipped) refl
    | inr real ↦ elim (Option-cases (decode m.body)) [
      | inl bad ↦ rw (real, bad) refl
      | inr (event, good) ↦
          rw (consume_event (some (c ∷ k)) m event s has_key real good, claimed) refl
    ]
  ]
