-- ===== src/Delivery/Queue.antt =====
-- The bot's consumer of one queue: the wrapper of `queue_consumer` in
-- apps/bot/extensions/_queue_registry.py, with the claims of
-- apps/api/repository/jobs_repository.py that it calls, and `_wrap_handler` of rabbit.py.
use genjishimada.Base.{Bool, true, false, not, Option, none, some, List, [], ◌∷◌, if◌then◌else◌}
use genjishimada.Base.Int.{ℤ, pos, ◌-ℤ◌, leb_ℤ}
use genjishimada.Base.Lists.{any}
use genjishimada.Base.Outcome.{Outcome, returned, raised, pure, raise, ◌>>=◌}
use genjishimada.Base.Rows.{delete_where}
use genjishimada.Base.Text.{Text, text_eq}
use genjishimada.Delivery.Jobs.{Message}

-- What a consumer works on: the claimed keys (public.processed_messages), the world that its
-- handler changes, the queue's dead letters, and the count of messages left from startup. The bot
-- keeps one such count for all its queues; here they are one.
pub record Consumer (W : Type 0) : Type 0 where
  pub claims : List Text
  pub world : W
  pub dead_letters : List Message
  pub pending_startup_messages : ℤ
  pub startup_draining : Bool
  pub startup_drain_complete : Bool

-- What a consumer raises: a body that does not decode, or its handler's exception.
pub data ConsumerError : Type 0 where
  decode_error : ConsumerError
  handler_error : ConsumerError

abbrev pub is_claimed : Text → List Text → Bool
is_claimed key = any (text_eq key)

-- `claim_idempotency`: INSERT … ON CONFLICT DO NOTHING, with whether a row was inserted
unfoldable pub claim_idempotency :
    {W : Type 0} → Text → Consumer W → Outcome (Consumer W) ConsumerError Bool
claim_idempotency key s =
    if is_claimed key s.claims
    then returned false s
    else returned true (record s { claims = key ∷ s.claims })

-- `delete_claimed_idempotency`
unfoldable pub delete_claimed_idempotency : {W : Type 0} → Text → Consumer W → Consumer W
delete_claimed_idempotency key s = record s { claims = delete_where (text_eq key) s.claims }

-- A handler gives the world that it leaves, and whether it returned or raised an Exception; whether
-- the API then answers the release of a claim is an argument too. The claim itself is answered.
module _ {W E : Type 0} (decode : Text → Option E) (fn : E → W → Bool × W)
    (released : Text → W → Bool) where
  abbrev pub call_handler : E → Consumer W → Outcome (Consumer W) ConsumerError (Unit {0})
  call_handler event s =
      let r = fn event s.world in
      if r.0
      then returned tt (record s { world = r.1 })
      else raised handler_error (record s { world = r.1 })

  -- `try: await fn(…) except Exception:` release the claim, where a failure of this is only logged,
  -- and raise
  abbrev pub release_on_error :
      Text
      → Outcome (Consumer W) ConsumerError (Unit {0})
      → Outcome (Consumer W) ConsumerError (Unit {0})
  release_on_error key (returned _ s) = returned tt s
  release_on_error key (raised e s) = elim (released key s.world) [
    | true ↦ raised e (delete_claimed_idempotency key s)
    | false ↦ raised e s
  ]

  abbrev pub handle_claimed :
      Text → E → Bool → Consumer W → Outcome (Consumer W) ConsumerError (Unit {0})
  handle_claimed key event false s = returned tt s
  handle_claimed key event true s = release_on_error key (call_handler event s)

  -- `if message.message_id: claim it`
  abbrev pub handle_once :
      Option Text → E → Consumer W → Outcome (Consumer W) ConsumerError (Unit {0})
  handle_once none event = call_handler event
  handle_once (some []) event = call_handler event
  handle_once (some (c ∷ key)) event = do
    claimed ← claim_idempotency (c ∷ key)
    handle_claimed (c ∷ key) event claimed

  abbrev pub handle_event :
      Bool → Option Text → Option E → Consumer W → Outcome (Consumer W) ConsumerError (Unit {0})
  handle_event idempotent id none = raise decode_error
  handle_event true id (some event) = handle_once id event
  handle_event false id (some event) = call_handler event

  -- The wrapper of `queue_consumer`.
  unfoldable pub consume :
      Bool → Message → Consumer W → Outcome (Consumer W) ConsumerError (Unit {0})
  consume idempotent m = elim m.is_pytest [
    | true ↦ pure tt
    | false ↦ handle_event idempotent m.message_id (decode m.body)
  ]

  -- The accounting of the messages that waited at startup.
  abbrev pub count_drained : Consumer W → Consumer W
  count_drained s =
      let left = s.pending_startup_messages -ℤ pos 1 in
      if not s.startup_draining
      then s
      else if leb_ℤ left (pos 0)
      then record s {
        pending_startup_messages = left;
        startup_draining = false;
        startup_drain_complete = true;
      }
      else record s { pending_startup_messages = left }

  abbrev pub settle : Message → Outcome (Consumer W) ConsumerError (Unit {0}) → Consumer W
  settle m (returned _ s) = count_drained s
  settle m (raised e s) = record s { dead_letters = m ∷ s.dead_letters }

  -- `_wrap_handler`: `message.process()` acknowledges the message, or rejects it to the queue's
  -- dead letters where the handler raises.
  unfoldable pub deliver : Bool → Message → Consumer W → Consumer W
  deliver idempotent m s = settle m (consume idempotent m s)

  abbrev pub deliver_all : Bool → List Message → Consumer W → Consumer W
  deliver_all idempotent [] s = s
  deliver_all idempotent (m ∷ ms) s = deliver_all idempotent ms (deliver idempotent m s)
