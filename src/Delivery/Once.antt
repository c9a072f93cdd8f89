-- ===== src/Delivery/Once.antt =====
-- Runs of the bot's consumer (apps/bot/extensions/_queue_registry.py): repeated messages and retries.
use genjishimada.Base.{
  ℕ, ◌≡◌, refl, sym, ◌∙◌, Bool, true, false, Option, some, List, [], ◌∷◌, arith, Bool-cases,
  Option-cases, inl, inr,
}
use genjishimada.Base.Outcome.{returned, raised, state_of}
use genjishimada.Base.Rows.{delete_where}
use genjishimada.Base.Text.{Text, text_eq, text_eq_refl}
use genjishimada.Delivery.Claims.{
  claimed_ignored, consume_event, deliver_all_keeps, returned_claims,
}
use genjishimada.Delivery.Jobs.{Message}
use genjishimada.Delivery.Queue.{
  Consumer, ConsumerError, handler_error, is_claimed, claim_idempotency, delete_claimed_idempotency,
  consume, deliver_all, handle_once,
}

release_free :
    (key : Text) (claims : List Text)
    → is_claimed key claims ≡ false
    → delete_where (text_eq key) claims ≡ claims
release_free key [] free = refl
release_free key (c ∷ claims) free = ground (arith, release_free key claims)

module _ {W E : Type 0} (decode : Text → Option E) (fn : E → W → Bool × W)
    (released : Text → W → Bool) where
  -- Once an idempotent consumer has taken a message, with an id that is not empty and without the
  -- mark of a test, and has not raised, then after any further deliveries a message with the same
  -- id, whatever its body, leaves the consumer and the world of its handler as they are.
  pub handled_once :
      (c : ℕ) (k : Text) (m m' : Message) (ms : List Message) (s s1 : Consumer W)
      → m.message_id ≡ some (c ∷ k)
      → m.is_pytest ≡ false
      → consume decode fn released true m s ≡ returned tt s1
      → m'.message_id ≡ some (c ∷ k)
      → state_of (consume decode fn released true m' (deliver_all decode fn released true ms s1))
        ≡ deliver_all decode fn released true ms s1
  handled_once c k m m' ms s s1 has_key real done same_key =
      claimed_ignored decode fn released c k m' (deliver_all decode fn released true ms s1) same_key
        (deliver_all_keeps decode fn released (c ∷ k) true ms s1
          (returned_claims decode fn released c k m s s1 has_key real done))

  unclaimed_raises :
      (c : ℕ) (k : Text) (event : E) (e : ConsumerError) (s s1 : Consumer W)
      → is_claimed (c ∷ k) s.claims ≡ false
      → handle_once decode fn released (some (c ∷ k)) event s ≡ raised e s1
      → released (c ∷ k) s1.world ≡ true
      → s1.claims ≡ s.claims
  unfolding claim_idempotency delete_claimed_idempotency
  unclaimed_raises c k event e s s1 free failed freed = elim (Bool-cases (fn event s.world).0) [
    | inl fine ↦ ground (arith, free, fine, failed)
    | inr broken ↦
        ground
          (arith, free, broken, failed, text_eq_refl (c ∷ k), release_free (c ∷ k) s.claims free)
  ]

  raised_claims :
      (c : ℕ) (k : Text) (m : Message) (e : ConsumerError) (s s1 : Consumer W)
      → m.message_id ≡ some (c ∷ k)
      → is_claimed (c ∷ k) s.claims ≡ false
      → consume decode fn released true m s ≡ raised e s1
      → released (c ∷ k) s1.world ≡ true
      → s1.claims ≡ s.claims
  unfolding consume
  raised_claims c k m e s s1 has_key free failed freed = elim (Bool-cases m.is_pytest) [
    | inl skipped ↦ ground (arith, skipped, failed)
    | inr real ↦ elim (Option-cases (decode m.body)) [
      | inl bad ↦ ground (arith, real, bad, failed)
      | inr (event, good) ↦
          unclaimed_raises c k event e s s1 free
            (sym (consume_event decode fn released (some (c ∷ k)) m event s has_key real good)
              ∙ failed)
            freed
    ]
  ]

  unreleased_claims :
      (c : ℕ) (k : Text) (event : E) (s s1 : Consumer W)
      → is_claimed (c ∷ k) s.claims ≡ false
      → handle_once decode fn released (some (c ∷ k)) event s ≡ raised handler_error s1
      → released (c ∷ k) s1.world ≡ false
      → is_claimed (c ∷ k) s1.claims ≡ true
  unfolding claim_idempotency delete_claimed_idempotency
  unreleased_claims c k event s s1 free failed kept = elim (Bool-cases (fn event s.world).0) [
    | inl fine ↦ ground (arith, free, fine, failed)
    | inr broken ↦ ground (arith, free, broken, failed, kept, text_eq_refl (c ∷ k))
  ]

  raised_keeps :
      (c : ℕ) (k : Text) (m : Message) (s s1 : Consumer W)
      → m.message_id ≡ some (c ∷ k)
      → is_claimed (c ∷ k) s.claims ≡ false
      → consume decode fn released true m s ≡ raised handler_error s1
      → released (c ∷ k) s1.world ≡ false
      → is_claimed (c ∷ k) s1.claims ≡ true
  unfolding consume
  raised_keeps c k m s s1 has_key free failed kept = elim (Bool-cases m.is_pytest) [
    | inl skipped ↦ absurd (ground (arith, skipped, failed))
    | inr real ↦ elim (Option-cases (decode m.body)) [
      | inl bad ↦ absurd (ground (arith, real, bad, failed))
      | inr (event, good) ↦
          unreleased_claims c k event s s1 free
            (sym (consume_event decode fn released (some (c ∷ k)) m event s has_key real good)
              ∙ failed)
            kept
    ]
  ]

  unclaimed_handled :
      (c : ℕ) (k : Text) (event : E) (s : Consumer W)
      → is_claimed (c ∷ k) s.claims ≡ false
      → (state_of (handle_once decode fn released (some (c ∷ k)) event s)).world
        ≡ (fn event s.world).1
  unfolding claim_idempotency delete_claimed_idempotency
  unclaimed_handled c k event s free = elim (Bool-cases (fn event s.world).0) [
    | inl fine ↦ rw (free, fine) refl
    | inr broken ↦ rw (free, broken) (ground arith)
  ]

  -- Where an idempotent consumer raises on a message whose id, not empty, is not claimed, there are
  -- two ends. If the API takes the release of the claim, the claims are as before, and the next
  -- message with this id, if it decodes and is no test's, leaves the world that the handler makes
  -- of the one at hand. If it was the handler that raised and the API does not take the release, the
  -- id stays claimed, and the next message with it changes nothing.
  pub retried_after_error :
      (c : ℕ) (k : Text) (m m' : Message) (event : E) (e : ConsumerError) (s s1 : Consumer W)
      → m.message_id ≡ some (c ∷ k)
      → is_claimed (c ∷ k) s.claims ≡ false
      → consume decode fn released true m s ≡ raised e s1
      → m'.message_id ≡ some (c ∷ k)
      → m'.is_pytest ≡ false
      → decode m'.body ≡ some event
      → (released (c ∷ k) s1.world ≡ true
          → (s1.claims ≡ s.claims)
            × ((state_of (consume decode fn released true m' s1)).world ≡ (fn event s1.world).1))
        × (e ≡ handler_error
            → released (c ∷ k) s1.world ≡ false
            → (is_claimed (c ∷ k) s1.claims ≡ true)
              × (state_of (consume decode fn released true m' s1) ≡ s1))
  retried_after_error c k m m' event e s s1 has_key free failed same_key real good =
      let step = consume_event decode fn released (some (c ∷ k)) m' event s1 same_key real good in
      (
        λ freed.
            let same = raised_claims c k m e s s1 has_key free failed freed in
            (same, rw (step) (unclaimed_handled c k event s1 (rw (same) free))),
        λ by_handler kept.
            let claimed = raised_keeps c k m s s1 has_key free (rw by_handler at failed) kept in
            (claimed, claimed_ignored decode fn released c k m' s1 same_key claimed),
      )
