-- ===== src/Queue/Tasks/Routes.antt =====
-- Which handler gets the tasks that internal/queue/tasks.go makes.
use agentic_demo.Prelude.{
  ◌≡◌, refl, inl, inr, Option, some, Text, lit, text_eq, is_empty, Result, ok, err, Bool-cases,
}
use agentic_demo.Queue.Tasks.{
  Payload, ingestion, report, delivery, Job, TaskError, Route, ingest_handler, report_handler,
  delivery_handler, ReportPayload, report_type_to_task_type, typed_report, new_report_job, route,
}

-- The handler reads the kind of payload that the job carries.
abbrev pub Handles : Option Route → Payload → Type 0
Handles (some ingest_handler) (ingestion p) = Unit
Handles (some report_handler) (report p) = Unit
Handles (some delivery_handler) (delivery p) = Unit
Handles _ _ = ⊥

-- The job has the payload, goes to the queue for reports, and reaches the handler of reports.
abbrev pub Sent : ReportPayload → Result TaskError Job → Type 0
Sent p (ok j) = (j.payload ≡ report p) × (j.queue ≡ lit "report") × Handles (route j.type) j.payload
Sent p (err e) = Unit

typed_report-Sent :
    (p : ReportPayload) (t : Text)
    → route t ≡ some report_handler
    → Sent p (typed_report p (some t))
typed_report-Sent p t h = (refl, refl, rw h tt)

typed-Sent : (p : ReportPayload) (t : Text) → Sent p (typed_report p (report_type_to_task_type t))
unfolding report_type_to_task_type route text_eq
typed-Sent p t = elim (Bool-cases (text_eq t (lit "daily"))) [
  | inl e ↦ rw e (typed_report-Sent p (lit "report:daily") refl)
  | inr e ↦ rw e (elim (Bool-cases (text_eq t (lit "weekly"))) [
    | inl f ↦ rw f (typed_report-Sent p (lit "report:weekly") refl)
    | inr f ↦ rw f (elim (Bool-cases (text_eq t (lit "monthly"))) [
      | inl g ↦ rw g (typed_report-Sent p (lit "report:monthly") refl)
      | inr g ↦ rw g (elim (Bool-cases (text_eq t (lit "on_demand"))) [
        | inl h ↦ rw h (typed_report-Sent p (lit "report:on_demand") refl)
        | inr h ↦ rw h tt
      ])
    ])
  ])
]

-- Every job that `NewReportJob` makes carries its payload and is processed by the report handler,
-- whatever the type of report.
pub new_report_job-Sent : (p : ReportPayload) → Sent p (new_report_job p)
unfolding new_report_job
new_report_job-Sent p = elim (Bool-cases (is_empty p.tenant_id)) [
  | inl e ↦ rw e tt
  | inr e ↦ rw e (elim (Bool-cases (is_empty p.report_type)) [
    | inl f ↦ rw f tt
    | inr f ↦ rw f (typed-Sent p p.report_type)
  ])
]
