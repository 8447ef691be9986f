-- ===== src/Queue/Handler.antt =====
-- internal/queue/handler.go: the handlers of tasks. A handler answers with the calls that it makes, in
-- order, and its result; what the called services answer is in the environment. A payload that is
-- not JSON of its kind is `none`.
pub mod Lifecycle
pub mod Recipients
use agentic_demo.Prelude.{
  ℕ, Bool, true, false, ◌&&◌, ◌||◌, not, Option, none, some, List, [], ◌∷◌, ◌++◌, Text, is_empty,
  Result, ok, err, if◌then◌else◌,
}
use agentic_demo.Queue.Tasks.{IngestionPayload, ReportPayload, DeliveryPayload}

pub data JobStatus : Type 0 where
  running succeeded failed : JobStatus

pub data Call : Type 0 where
  acquire release : Text → Call
  mark : Text → JobStatus → Call
  ingest : Text → Text → Call
  generate : ReportPayload → Call
  store_report : ReportPayload → Text → Call
  enqueue : DeliveryPayload → Call
  deliver : Text → Text → Call

pub data HandlerError : Type 0 where
  bad_payload rate_limited ingest_failed generate_failed persist_failed bad_report_id fetch_failed
        deliver_failed :
      HandlerError
  -- Joined with `asynq.SkipRetry`.
  skip_retry : HandlerError

-- What the queue, the workers and the services answer. `stored_id` is the identifier of the stored
-- report, and `task_id` is empty for a task without one.
pub record HandlerEnv : Type 0 where
  pub has_limiter : Bool
  pub acquire_ok : Bool
  pub task_id : Text
  pub generated : Option Text
  pub has_report_service : Bool
  pub stored_id : Option Text
  pub has_queue : Bool

-- `trackJob`.
unfoldable pub track_job : HandlerEnv → JobStatus → List Call
track_job env status =
    if is_empty env.task_id || not env.has_report_service then [] else mark env.task_id status ∷ []

-- `Acquire` in front, and the call of the deferred `Release` behind the body of a handler. The call runs
-- on the context of the job, and its error is dropped: it may leave the slot taken.
abbrev pub limited :
    HandlerEnv
    → Text
    → List Call × Result HandlerError (Unit {0})
    → List Call × Result HandlerError (Unit {0})
limited env tenant body =
    if not env.has_limiter
    then body
    else if env.acquire_ok
    then (acquire tenant ∷ (body.0 ++ (release tenant ∷ [])), body.1)
    else (acquire tenant ∷ [], err rate_limited)

abbrev pub failed_with : HandlerEnv → HandlerError → List Call × Result HandlerError (Unit {0})
unfolding track_job
failed_with env e = (track_job env failed, err e)

-- The enqueueing of the delivery: whether it succeeds is only logged.
abbrev pub delivery_calls : HandlerEnv → ReportPayload → Text → List Call
delivery_calls env p id =
    if env.has_queue
    then enqueue (record { tenant_id = p.tenant_id; report_id = id; recipient_email = [] }) ∷ []
    else []

abbrev pub after_store :
    HandlerEnv → ReportPayload → Option Text → List Call × Result HandlerError (Unit {0})
unfolding failed_with track_job
after_store env p none = failed_with env persist_failed
after_store env p (some id) = (delivery_calls env p id ++ track_job env succeeded, ok tt)

abbrev pub after_generate :
    HandlerEnv → ReportPayload → Option Text → List Call × Result HandlerError (Unit {0})
unfolding failed_with track_job after_store
after_generate env p none = failed_with env generate_failed
after_generate env p (some content) =
    if env.has_report_service
    then (
      store_report p content ∷ (after_store env p env.stored_id).0,
      (after_store env p env.stored_id).1,
    )
    else (track_job env succeeded, ok tt)

-- The body of `ReportHandler.ProcessTask` behind the rate limiter.
abbrev pub report_body : HandlerEnv → ReportPayload → List Call × Result HandlerError (Unit {0})
unfolding track_job after_generate
report_body env p = (
  track_job env running ++ (generate p ∷ (after_generate env p env.generated).0),
  (after_generate env p env.generated).1,
)

-- `ReportHandler.ProcessTask`.
unfoldable pub process_report :
    HandlerEnv → Option ReportPayload → List Call × Result HandlerError (Unit {0})
unfolding report_body
process_report env none = ([], err bad_payload)
process_report env (some p) = limited env p.tenant_id (report_body env p)

pub data Ingested : Type 0 where
  ingested resolution_failed other_failure : Ingested

abbrev pub ingest_result : Ingested → Result HandlerError (Unit {0})
ingest_result ingested = ok tt
ingest_result resolution_failed = err skip_retry
ingest_result other_failure = err ingest_failed

-- `IngestHandler.ProcessTask`; the result of the worker is an argument.
unfoldable pub process_ingest :
    HandlerEnv → Ingested → Option IngestionPayload → List Call × Result HandlerError (Unit {0})
process_ingest env r none = ([], err bad_payload)
process_ingest env r (some p) =
    limited env p.tenant_id (ingest p.tenant_id p.source_id ∷ [], ingest_result r)

pub record DeliveryEnv : Type 0 where
  pub has_services : Bool
  pub is_uuid : Text → Bool
  pub fetch : Text → Option Text
  pub deliver_ok : Bool

abbrev pub send :
    DeliveryEnv → DeliveryPayload → Option Text → List Call × Result HandlerError (Unit {0})
send env p none = ([], err fetch_failed)
send env p (some content) = if is_empty p.recipient_email then ([], ok tt) else (
  deliver p.recipient_email content ∷ [],
  (if env.deliver_ok then ok tt else err deliver_failed),
)

-- `DeliveryHandler.ProcessTask`.
unfoldable pub process_delivery :
    DeliveryEnv → Option DeliveryPayload → List Call × Result HandlerError (Unit {0})
process_delivery env none = ([], err bad_payload)
process_delivery env (some p) =
    if not env.has_services
    then ([], ok tt)
    else if not (env.is_uuid p.report_id)
    then ([], err bad_report_id)
    else send env p (env.fetch p.report_id)
