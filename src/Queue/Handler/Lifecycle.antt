-- ===== src/Queue/Handler/Lifecycle.antt =====
-- The status of a report job in ReportHandler of internal/queue/handler.go.
use agentic_demo.Prelude.{
  ◌≡◌, refl, ◌∙◌, ap, append-nil, true, false, not, Option, none, some, List, [], ◌∷◌, ◌++◌, Text,
  is_empty, Result, ok, err, if_both,
}
use agentic_demo.Queue.Tasks.{ReportPayload}
use agentic_demo.Queue.Handler.{
  JobStatus, running, succeeded, failed, Call, acquire, release, mark, generate, store_report,
  enqueue, ingest, deliver, HandlerError, rate_limited, HandlerEnv, track_job, delivery_calls,
  after_store, after_generate, failed_with, report_body, process_report,
}

-- The statuses that the calls record, in order.
abbrev pub marks : List Call → List JobStatus
marks [] = []
marks (mark t s ∷ cs) = s ∷ marks cs
marks (_ ∷ cs) = marks cs

-- The statuses of a job that ends with a result.
abbrev pub Ends : Result HandlerError (Unit {0}) → List JobStatus → Type 0
Ends (ok u) ms = ms ≡ running ∷ succeeded ∷ []
Ends (err rate_limited) ms = ms ≡ []
Ends (err e) ms = ms ≡ running ∷ failed ∷ []

marks-append : (xs ys : List Call) → marks (xs ++ ys) ≡ marks xs ++ marks ys
marks-append [] ys = refl
marks-append (acquire t ∷ xs) ys = marks-append xs ys
marks-append (release t ∷ xs) ys = marks-append xs ys
marks-append (mark t s ∷ xs) ys = ap (◌∷◌ s) (marks-append xs ys)
marks-append (ingest t s ∷ xs) ys = marks-append xs ys
marks-append (generate p ∷ xs) ys = marks-append xs ys
marks-append (store_report p c ∷ xs) ys = marks-append xs ys
marks-append (enqueue d ∷ xs) ys = marks-append xs ys
marks-append (deliver r c ∷ xs) ys = marks-append xs ys

-- How a job ends behind the status that it is running.
EndsAfter : List Call × Result HandlerError (Unit {0}) → Type 0
EndsAfter (cs, r) = Ends r (running ∷ marks cs)

module _ (env : HandlerEnv) (p : ReportPayload) (h : is_empty env.task_id ≡ false)
    (k : env.has_report_service ≡ true) where
  marks-track_job : (status : JobStatus) → marks (track_job env status) ≡ status ∷ []
  unfolding track_job
  marks-track_job status = rw (h, k) refl

  marks-delivery_calls : (id : Text) → marks (delivery_calls env p id) ≡ []
  marks-delivery_calls id = if_both (λ cs. marks cs ≡ []) env.has_queue refl refl

  after_store-EndsAfter : (r : Option Text) → EndsAfter (after_store env p r)
  unfolding after_store failed_with EndsAfter
  after_store-EndsAfter none = ap (◌∷◌ running) (marks-track_job failed)
  after_store-EndsAfter (some id) = ap (◌∷◌ running) (
      marks-append (delivery_calls env p id) (track_job env succeeded)
      ∙ (ap (λ ms. ms ++ marks (track_job env succeeded)) (marks-delivery_calls id)
          ∙ marks-track_job succeeded))

  after_generate-EndsAfter : (r : Option Text) → EndsAfter (after_generate env p r)
  unfolding after_generate failed_with EndsAfter
  after_generate-EndsAfter none = ap (◌∷◌ running) (marks-track_job failed)
  after_generate-EndsAfter (some content) =
      if_both EndsAfter env.has_report_service (after_store-EndsAfter env.stored_id)
        (ap (◌∷◌ running) (marks-track_job succeeded))

  EndsAfter-body :
      (c : List Call × Result HandlerError (Unit {0}))
      → EndsAfter c
      → Ends c.1 (marks (track_job env running ++ (generate p ∷ c.0)))
  unfolding EndsAfter
  EndsAfter-body c e =
      rw (marks-append (track_job env running) (generate p ∷ c.0), marks-track_job running) e

  report_body-Ends : Ends (report_body env p).1 (marks (report_body env p).0)
  unfolding report_body
  report_body-Ends =
      EndsAfter-body (after_generate env p env.generated) (after_generate-EndsAfter env.generated)

-- A tracked report job is marked running and then, exactly once, succeeded or failed, as its result
-- says; one that is refused a slot is not marked at all.
pub process_report-Ends :
    (env : HandlerEnv) (p : ReportPayload)
    → is_empty env.task_id ≡ false
    → env.has_report_service ≡ true
    → Ends (process_report env (some p)).1 (marks (process_report env (some p)).0)
unfolding process_report
process_report-Ends env p h k =
    if_both (λ (r : List Call × Result HandlerError (Unit {0})). Ends r.1 (marks r.0))
      (not env.has_limiter) (report_body-Ends env p h k)
      (if_both (λ (r : List Call × Result HandlerError (Unit {0})). Ends r.1 (marks r.0))
        env.acquire_ok
        (rw
          (
            marks-append (report_body env p).0 (release p.tenant_id ∷ []),
            append-nil (marks (report_body env p).0),
          )
          (report_body-Ends env p h k))
        refl)
