-- ===== src/Queue/Handler/Recipients.antt =====
-- The deliveries that ReportHandler of internal/queue/handler.go enqueues.
use agentic_demo.Prelude.{
  ◌≡◌, refl, inl, inr, ◌||◌, not, Option, none, some, List, [], ◌∷◌, Text, is_empty, All,
  All-append, Result, if_both, Bool-cases,
}
use agentic_demo.Queue.Tasks.{ReportPayload}
use agentic_demo.Queue.Handler.{
  JobStatus, running, succeeded, failed, Call, release, generate, enqueue, HandlerError, HandlerEnv,
  track_job, delivery_calls, after_store, after_generate, failed_with, report_body, process_report,
  DeliveryEnv, send, process_delivery,
}

-- A delivery that is enqueued sends nothing when it is processed.
abbrev pub NeverSent : DeliveryEnv → Call → Type 0
NeverSent env (enqueue d) = (process_delivery env (some d)).0 ≡ []
NeverSent env c = Unit

send-empty :
    (env : DeliveryEnv) (t id : Text) (r : Option Text)
    → (send env (record { tenant_id = t; report_id = id; recipient_email = [] }) r).0 ≡ []
unfolding is_empty
send-empty env t id none = refl
send-empty env t id (some content) = refl

process_delivery-empty :
    (env : DeliveryEnv) (t id : Text)
    → (process_delivery env
        (some (record { tenant_id = t; report_id = id; recipient_email = [] }))).0
      ≡ []
unfolding process_delivery
process_delivery-empty env t id = elim (Bool-cases env.has_services) [
  | inr s ↦ rw s refl
  | inl s ↦ elim (Bool-cases (env.is_uuid id)) [
    | inr u ↦ rw (s, u) refl
    | inl u ↦ rw (s, u) (send-empty env t id (env.fetch id))
  ]
]

module _ (d : DeliveryEnv) (env : HandlerEnv) (p : ReportPayload) where
  track_job-NeverSent : (status : JobStatus) → All (NeverSent d) (track_job env status)
  unfolding track_job
  track_job-NeverSent status =
      elim (Bool-cases (is_empty env.task_id || not env.has_report_service)) [
        | inl e ↦ rw e tt
        | inr e ↦ rw e (tt, tt)
      ]

  delivery_calls-NeverSent : (id : Text) → All (NeverSent d) (delivery_calls env p id)
  delivery_calls-NeverSent id = elim (Bool-cases env.has_queue) [
    | inl q ↦ rw q (process_delivery-empty d p.tenant_id id, tt)
    | inr q ↦ rw q tt
  ]

  after_store-NeverSent : (r : Option Text) → All (NeverSent d) (after_store env p r).0
  unfolding after_store failed_with
  after_store-NeverSent none = track_job-NeverSent failed
  after_store-NeverSent (some id) =
      All-append (NeverSent d) (delivery_calls env p id) (track_job env succeeded)
        (delivery_calls-NeverSent id) (track_job-NeverSent succeeded)

  after_generate-NeverSent : (r : Option Text) → All (NeverSent d) (after_generate env p r).0
  unfolding after_generate failed_with
  after_generate-NeverSent none = track_job-NeverSent failed
  after_generate-NeverSent (some content) =
      if_both (λ (r : List Call × Result HandlerError (Unit {0})). All (NeverSent d) r.0)
        env.has_report_service (tt, after_store-NeverSent env.stored_id)
        (track_job-NeverSent succeeded)

  report_body-NeverSent : All (NeverSent d) (report_body env p).0
  unfolding report_body
  report_body-NeverSent =
      All-append (NeverSent d) (track_job env running)
        (generate p ∷ (after_generate env p env.generated).0) (track_job-NeverSent running)
        (tt, after_generate-NeverSent env.generated)

-- Processing a delivery that a report job has enqueued sends nothing, whatever the services answer to
-- either of them.
pub process_report-NeverSent :
    (d : DeliveryEnv) (env : HandlerEnv) (p : ReportPayload)
    → All (NeverSent d) (process_report env (some p)).0
unfolding process_report
process_report-NeverSent d env p = elim (Bool-cases env.has_limiter) [
  | inr l ↦ rw l (report_body-NeverSent d env p)
  | inl l ↦ elim (Bool-cases env.acquire_ok) [
    | inr a ↦ rw (l, a) (tt, tt)
    | inl a ↦
        rw (l, a)
          (
            tt,
            All-append (NeverSent d) (report_body env p).0 (release p.tenant_id ∷ [])
                (report_body-NeverSent d env p) (tt, tt),
          )
  ]
]
