-- ===== src/Delivery/Sending.antt =====
-- What a caller of `publish_message` learns, and what the job's row says.
use genjishimada.Base.{◌≡◌, Bool, true, false, not, ◌&&◌, Option, arith, Bool-cases, inl, inr}
use genjishimada.Base.Lists.{any}
use genjishimada.Base.Outcome.{Outcome, returned, ◌>>=◌}
use genjishimada.Base.Text.{Text, text_eq, text_eq_refl}
use genjishimada.Delivery.Jobs.{
  Job, JobStatus, queued, failed, Outbox, DeliveryError, get_job, ignore_idempotency, is_given,
  is_test, publish_message,
}

abbrev pub answer : Bool → JobStatus
answer true = queued
answer false = failed

-- The call of `get_job` after `publish_message`.
abbrev pub publish_then_get :
    Text
    → Text
    → Option Text
    → Option Text
    → Text
    → Bool
    → Bool
    → Outbox
    → Outcome Outbox DeliveryError (JobStatus × Job)
publish_then_get routing_key body header key job_id written broker_takes = do
  status ← publish_message routing_key body header key job_id written broker_takes
  job ← get_job job_id
  (λ s. returned (status, job) s)

-- Where publishing a message, not a test's, has written the job's row, and publishing and reading
-- the job both answer, publishing has answered queued if the broker took the message and failed if
-- not, and the job is queued in both cases.
pub publish_job_queued :
    (routing_key body : Text) (header key : Option Text) (job_id : Text) (broker_takes : Bool)
    (s s1 : Outbox) (status : JobStatus) (job : Job)
    → is_test header ≡ false
    → publish_then_get routing_key body header key job_id true broker_takes s
      ≡ returned (status, job) s1
    → (status ≡ answer broker_takes) × (job.status ≡ queued)
unfolding publish_message get_job
publish_job_queued routing_key body header key job_id broker_takes s s1 status job real done =
    elim (Bool-cases (not (any (text_eq routing_key) ignore_idempotency) && not (is_given key))) [
      | inl refused ↦ ground (arith, refused, done)
      | inr permitted ↦ ground (arith, permitted, real, done, text_eq_refl job_id)
    ]
