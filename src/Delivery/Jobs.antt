-- ===== src/Delivery/Jobs.antt =====
-- Jobs and published messages: `publish_message` of apps/api/services/base.py and the statements
-- on jobs of apps/api/repository/jobs_repository.py.
use genjishimada.Base.{ℕ, is_some, Bool, true, false, not, ◌&&◌, Option, none, some, List, [], ◌∷◌}
use genjishimada.Base.Lists.{any, find?}
use genjishimada.Base.Outcome.{Outcome, pure, gets, modify, or_raise, raise_if, ◌>>=◌, ◌>>◌}
use genjishimada.Base.Rows.{update_where}
use genjishimada.Base.Text.{Text, codes, text_eq}

-- The type job_status.
pub data JobStatus : Type 0 where
  queued : JobStatus
  processing : JobStatus
  succeeded : JobStatus
  failed : JobStatus
  timeout : JobStatus

-- A row of public.jobs. Ids are texts of uuids.
pub record Job : Type 0 where
  pub id : Text
  pub action : Text
  pub status : JobStatus
  pub error_code : Option Text
  pub error_msg : Option Text
  pub started_at : Option ℕ
  pub finished_at : Option ℕ

pub record Message : Type 0 where
  pub message_id : Option Text
  pub is_pytest : Bool
  pub body : Text

pub record Outbox : Type 0 where
  pub jobs : List Job
  pub messages : List Message

pub data DeliveryError : Type 0 where
  value_error : DeliveryError
  job_not_found : DeliveryError

-- `IGNORE_IDEMPOTENCY`
abbrev pub ignore_idempotency : List Text
ignore_idempotency =
    codes "api.completion.upvote"
    ∷ codes "api.completion.verification.delete"
    ∷ codes "api.notification.delivery"
    ∷ codes "api.playtest.vote.cast"
    ∷ codes "api.playtest.vote.remove"
    ∷ codes "api.xp.grant"
    ∷ codes "api.completion.autoverification.failed"
    ∷ []

abbrev pub is_given : Option Text → Bool
is_given none = false
is_given (some []) = false
is_given (some (c ∷ s)) = true

-- `idempotency_key or str(job_id)`
abbrev pub key_or : Option Text → Text → Text
key_or none job_id = job_id
key_or (some []) job_id = job_id
key_or (some (c ∷ s)) job_id = c ∷ s

abbrev pub new_job : Text → Text → Job
new_job id action = record {
  id = id;
  action = action;
  status = queued;
  error_code = none;
  error_msg = none;
  started_at = none;
  finished_at = none;
}

-- `headers.get("X-PYTEST-ENABLED") == "1"`
abbrev pub is_test : Option Text → Bool
is_test none = false
is_test (some s) = text_eq s (codes "1")

-- `publish_message`: `header` is X-PYTEST-ENABLED of the request, whose headers go with the message,
-- and a header that is there is a list that is not empty; `job_id` is what uuid4 gives, `written`
-- whether PostgreSQL takes the row, and `broker_takes` whether the broker takes the message. A
-- PostgresError and an AMQPError are caught.
unfoldable pub publish_message :
    Text
    → Text
    → Option Text
    → Option Text
    → Text
    → Bool
    → Bool
    → Outbox
    → Outcome Outbox DeliveryError JobStatus
publish_message routing_key body header key job_id written broker_takes = do
  raise_if (not (any (text_eq routing_key) ignore_idempotency) && not (is_given key)) value_error
  (elim (is_test header) [
    | true ↦ pure succeeded
    | false ↦ (elim written [
      | false ↦ pure failed
      | true ↦ do
        modify (λ s. record s { jobs = new_job job_id routing_key ∷ s.jobs })
        (elim broker_takes [
          | false ↦ pure failed
          | true ↦ do
            modify (λ s. record s {
              messages =
                  record {
                    message_id = some (key_or key job_id);
                    is_pytest = is_some header;
                    body = body;
                  }
                  ∷ s.messages;
            })
            pure queued
        ])
    ])
  ])

abbrev pub has_job_id : Text → Job → Bool
has_job_id id j = text_eq j.id id

-- `get_job`
unfoldable pub get_job : Text → Outbox → Outcome Outbox DeliveryError Job
get_job id = do row ← gets (λ s. find? (has_job_id id) s.jobs); or_raise row job_not_found

abbrev pub or_now : Option ℕ → ℕ → Option ℕ
or_now none now = some now
or_now (some t) now = some t

-- The columns that `update_job` sets for each status.
abbrev pub job_update : ℕ → JobStatus → Option Text → Option Text → Job → Job
job_update now queued code msg j = record j { status = queued }
job_update now processing code msg j = record j {
  status = processing;
  started_at = or_now j.started_at now;
}
job_update now succeeded code msg j = record j {
  status = succeeded;
  finished_at = some now;
  error_code = none;
  error_msg = none;
}
job_update now failed code msg j = record j {
  status = failed;
  finished_at = some now;
  error_code = code;
  error_msg = msg;
}
job_update now timeout code msg j = record j {
  status = timeout;
  finished_at = some now;
  error_code = code;
  error_msg = msg;
}

-- `update_job`
unfoldable pub update_job : ℕ → Text → JobStatus → Option Text → Option Text → Outbox → Outbox
update_job now id status code msg s = record s {
  jobs = update_where (has_job_id id) (job_update now status code msg) s.jobs;
}
