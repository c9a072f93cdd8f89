-- ===== src/Delivery/Draining.antt =====
-- The messages that waited when the bot started: what `wait_until_drained` of rabbit.py waits for.
use genjishimada.Base.{
  ℕ, zero, suc, ◌≡◌, refl, ap, ◌∙◌, Bool, true, false, Option, none, some, List, [], ◌∷◌, arith,
  leb, Bool-cases, inl, inr,
}
use genjishimada.Base.Int.{ℤ, pos, ◌-ℤ◌}
use genjishimada.Base.Outcome.{Outcome, returned, raised, state_of}
use genjishimada.Base.Text.{Text}
use genjishimada.Delivery.Jobs.{Message}
use genjishimada.Delivery.Queue.{
  Consumer, ConsumerError, claim_idempotency, delete_claimed_idempotency, call_handler, handle_once,
  handle_event, consume, count_drained, settle, deliver, deliver_all,
}

abbrev pub is_returned : {W : Type 0} → Outcome (Consumer W) ConsumerError (Unit {0}) → Bool
is_returned (returned _ s) = true
is_returned (raised e s) = false

abbrev pub add_if : Bool → ℕ → ℕ
add_if true n = suc n
add_if false n = n

-- What the accounting reads.
abbrev pub startup_of : {W : Type 0} → Consumer W → ℤ × Bool × Bool
startup_of s = (s.pending_startup_messages, s.startup_draining, s.startup_drain_complete)

module _ {W E : Type 0} (decode : Text → Option E) (fn : E → W → Bool × W)
    (released : Text → W → Bool) where
  -- How many of the deliveries end without an exception.
  unfoldable pub count_handled : Bool → List Message → Consumer W → ℕ
  count_handled idempotent [] s = 0
  count_handled idempotent (m ∷ ms) s =
      add_if (is_returned (consume decode fn released idempotent m s))
        (count_handled idempotent ms (deliver decode fn released idempotent m s))

  call_startup :
      (event : E) (s : Consumer W)
      → startup_of (state_of (call_handler decode fn released event s)) ≡ startup_of s
  call_startup event s = elim (Bool-cases (fn event s.world).0) [
    | inl fine ↦ rw (fine) refl
    | inr broken ↦ rw (broken) refl
  ]

  once_startup :
      (id : Option Text) (event : E) (s : Consumer W)
      → startup_of (state_of (handle_once decode fn released id event s)) ≡ startup_of s
  unfolding claim_idempotency delete_claimed_idempotency
  once_startup none event s = call_startup event s
  once_startup (some []) event s = call_startup event s
  once_startup (some (c ∷ key)) event s = ground arith

  consume_startup :
      (idempotent : Bool) (m : Message) (s : Consumer W)
      → startup_of (state_of (consume decode fn released idempotent m s)) ≡ startup_of s
  unfolding consume
  consume_startup idempotent m s = elim (Bool-cases m.is_pytest) [
    | inl skipped ↦ rw (skipped) refl
    | inr handled ↦ rw (handled) (event_startup (decode m.body) idempotent)
  ]
    where
      event_startup :
          (event : Option E) (idempotent : Bool)
          → startup_of (state_of (handle_event decode fn released idempotent m.message_id event s))
            ≡ startup_of s
      event_startup none idempotent = refl
      event_startup (some event) true = once_startup m.message_id event s
      event_startup (some event) false = call_startup event s

  settle_complete :
      (m : Message) (o : Outcome (Consumer W) ConsumerError (Unit {0}))
      → (state_of o).startup_drain_complete ≡ true
      → (settle decode fn released m o).startup_drain_complete ≡ true
  settle_complete m (returned _ s) complete = ground arith
  settle_complete m (raised e s) complete = complete

  stays_complete :
      (idempotent : Bool) (ms : List Message) (s : Consumer W)
      → s.startup_drain_complete ≡ true
      → (deliver_all decode fn released idempotent ms s).startup_drain_complete ≡ true
  unfolding deliver
  stays_complete idempotent [] s complete = complete
  stays_complete idempotent (m ∷ ms) s complete =
      stays_complete idempotent ms (deliver decode fn released idempotent m s) (
        settle_complete m (consume decode fn released idempotent m s)
          (ap (λ t. t.2) (consume_startup idempotent m s) ∙ complete))

  drained_last :
      (s : Consumer W)
      → startup_of s ≡ (pos 1, true, false)
      → (count_drained decode fn released s).startup_drain_complete ≡ true
  unfolding ◌-ℤ◌
  drained_last s h = ground arith

  drained_one :
      (n : ℕ) (s : Consumer W)
      → startup_of s ≡ (pos (suc (suc n)), true, false)
      → startup_of (count_drained decode fn released s) ≡ (pos (suc n), true, false)
  unfolding ◌-ℤ◌
  drained_one n s h = ground arith

  settled :
      (idempotent : Bool) (m : Message) (ms : List Message) (n : ℕ)
      (o : Outcome (Consumer W) ConsumerError (Unit {0}))
      → ((n : ℕ) (s : Consumer W)
          → startup_of s ≡ (pos (suc n), true, false)
          → (deliver_all decode fn released idempotent ms s).startup_drain_complete
            ≡ leb (suc n) (count_handled idempotent ms s))
      → startup_of (state_of o) ≡ (pos (suc n), true, false)
      → (deliver_all decode fn released idempotent ms
          (settle decode fn released m o)).startup_drain_complete
        ≡ leb
            (suc n)
            (add_if (is_returned o) (count_handled idempotent ms (settle decode fn released m o)))
  settled idempotent m ms n (raised e s) rest waiting =
      rest n (record s { dead_letters = m ∷ s.dead_letters }) waiting
  settled idempotent m ms zero (returned _ s) rest waiting =
      rw
        (stays_complete idempotent ms (count_drained decode fn released s) (drained_last s waiting))
        (ground arith)
  settled idempotent m ms (suc n) (returned _ s) rest waiting =
      rw (rest n (count_drained decode fn released s) (drained_one n s waiting)) (ground arith)

  -- Where a number of messages, not zero, waits at startup, the drain is complete after some
  -- deliveries exactly when at least that number of them ended without an exception, whichever
  -- messages they were.
  pub drains_iff_handled :
      (idempotent : Bool) (ms : List Message) (n : ℕ) (s : Consumer W)
      → startup_of s ≡ (pos (suc n), true, false)
      → (deliver_all decode fn released idempotent ms s).startup_drain_complete
        ≡ leb (suc n) (count_handled idempotent ms s)
  unfolding deliver count_handled
  drains_iff_handled idempotent [] n s waiting = ground arith
  drains_iff_handled idempotent (m ∷ ms) n s waiting =
      settled idempotent m ms n (consume decode fn released idempotent m s)
        (drains_iff_handled idempotent ms) (consume_startup idempotent m s ∙ waiting)
