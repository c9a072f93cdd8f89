-- ===== src/Delivery/Tests.antt =====
-- The consumer and the jobs on concrete messages.
use genjishimada.Base.{
  none, ℕ, suc, ◌≡◌, refl, Bool, true, false, not, Option, some, List, [], ◌∷◌, leb,
}
use genjishimada.Base.Int.{pos, ◌-ℤ◌}
use genjishimada.Base.Outcome.{returned, raised, state_of}
use genjishimada.Base.Text.{Text, codes, text_eq}
use genjishimada.Delivery.Jobs.{
  Job, queued, failed, Message, Outbox, new_job, publish_message, get_job,
}
use genjishimada.Delivery.Queue.{
  Consumer, handler_error, is_claimed, claim_idempotency, delete_claimed_idempotency, consume,
  deliver, deliver_all,
}
use genjishimada.Delivery.Once.{handled_once, retried_after_error}
use genjishimada.Delivery.Draining.{count_handled, drains_iff_handled}
use genjishimada.Delivery.Sending.{publish_then_get, publish_job_queued}

abbrev read_body : Text → Option Text
read_body t = some t

-- A handler that counts its calls and refuses one body.
abbrev counting : Text → ℕ → Bool × ℕ
counting event calls = (not (text_eq event (codes "bad")), suc calls)

-- The API takes the release of a claim.
abbrev answers : Text → ℕ → Bool
answers key calls = true

abbrev letter : Text → Message
letter body = record { message_id = some (codes "k"); is_pytest = false; body = body }

abbrev idle : Consumer ℕ
idle = record {
  claims = [];
  world = 0;
  dead_letters = [];
  pending_startup_messages = pos 2;
  startup_draining = true;
  startup_drain_complete = false;
}

-- The consumer after a message, with the key claimed or not.
abbrev after_good : Consumer ℕ
after_good = record idle { claims = codes "k" ∷ []; world = 1 }

abbrev after_bad : Consumer ℕ
after_bad = record idle { world = 1 }

consume_good :
    consume read_body counting answers true (letter (codes "a")) idle ≡ returned tt after_good
unfolding consume claim_idempotency
consume_good = refl

consume_bad :
    consume read_body counting answers true (letter (codes "bad")) idle
    ≡ raised handler_error after_bad
unfolding consume claim_idempotency delete_claimed_idempotency
consume_bad = refl

handled_once_example :
    state_of (
      consume read_body counting answers true
        (letter (codes "b"))
        (deliver_all read_body counting answers true (letter (codes "bad") ∷ []) after_good))
    ≡ deliver_all read_body counting answers true (letter (codes "bad") ∷ []) after_good
handled_once_example =
    handled_once read_body counting answers 107 [] (letter (codes "a")) (letter (codes "b"))
      (letter (codes "bad") ∷ []) idle after_good refl refl consume_good refl

retried_after_error_example :
    (answers (codes "k") 1 ≡ true
      → (after_bad.claims ≡ idle.claims)
        × ((state_of (consume read_body counting answers true (letter (codes "b")) after_bad)).world
            ≡ 2))
    × (handler_error ≡ handler_error
        → answers (codes "k") 1 ≡ false
        → (is_claimed (codes "k") after_bad.claims ≡ true)
          × (state_of (consume read_body counting answers true (letter (codes "b")) after_bad)
              ≡ after_bad))
retried_after_error_example =
    retried_after_error read_body counting answers 107 [] (letter (codes "bad"))
      (letter (codes "b")) (codes "b") handler_error idle after_bad refl refl consume_bad refl refl
      refl

abbrev two_letters : List Message
two_letters = letter (codes "bad") ∷ letter (codes "a") ∷ []

-- The first of two messages fails, so the drain waits for one more.
drains_iff_handled_example :
    (deliver_all read_body counting answers false two_letters idle).startup_drain_complete
    ≡ leb 2 (count_handled read_body counting answers false two_letters idle)
drains_iff_handled_example =
    drains_iff_handled read_body counting answers false two_letters 1 idle refl

never_drained :
    (deliver_all read_body counting answers false two_letters idle).startup_drain_complete ≡ false
unfolding deliver consume ◌-ℤ◌
never_drained = refl

abbrev no_jobs : Outbox
no_jobs = record { jobs = []; messages = [] }

abbrev waiting_job : Job
waiting_job = new_job (codes "j") (codes "api.map_edit.created")

broker_down :
    publish_then_get
      (codes "api.map_edit.created")
      (codes "x")
      none
      (some (codes "k"))
      (codes "j")
      true
      false
      no_jobs
    ≡ returned (failed, waiting_job) (record no_jobs { jobs = waiting_job ∷ [] })
unfolding publish_message get_job
broker_down = refl

publish_job_queued_example : (failed ≡ failed) × (waiting_job.status ≡ queued)
publish_job_queued_example =
    publish_job_queued (codes "api.map_edit.created") (codes "x") none (some (codes "k"))
      (codes "j") false no_jobs (record no_jobs { jobs = waiting_job ∷ [] }) failed waiting_job refl
      broker_down
