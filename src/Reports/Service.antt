-- ===== src/Reports/Service.antt =====
-- internal/reports/service.go over the tables of reports and of generation jobs. The order in
-- which one query puts the reports is a parameter, as ties in time may be broken otherwise by the
-- next; jobs stand in the table newest first.
use agentic_demo.Prelude.{
  ℕ, suc, ◌-◌, ◌*◌, ◌%◌, Bool, ◌||◌, not, Option, none, some, List, [], ◌∷◌, map, take, drop,
  length, keep_if, any_of, Text, lit, text_eq, is_empty, trim_space, ltb, leb, Result, ok, err,
  if◌then◌else◌,
}
use agentic_demo.Queue.Handler.{JobStatus, running, succeeded, failed}

pub data ServiceError : Type 0 where
  report_not_found invalid_tenant_id invalid_report_id invalid_task_id invalid_report_type :
      ServiceError
  unavailable : ServiceError

pub record ReportRow : Type 0 where
  pub id : ℕ
  pub tenant_id : Text
  pub type : Text
  pub title : Text
  pub content : Text
  pub citations : Text
  pub focus : Text
  pub schedule_id : Option ℕ
  pub generated_at : ℕ

-- No citations are the nil slice.
pub record CreateReport : Type 0 where
  pub tenant_id : Text
  pub type : Text
  pub title : Text
  pub content : Text
  pub citations : Option Text
  pub focus : Text
  pub schedule_id : Option ℕ
  pub generated_at : ℕ

pub record JobRow : Type 0 where
  pub tenant_id : Text
  pub task_id : Text
  pub report_type : Text
  pub focus : Text
  pub status : Text
  pub error : Text
  pub finished_at : Option ℕ

pub record ReportTables : Type 0 where
  pub reports : List ReportRow
  pub jobs : List JobRow
  pub next_id : ℕ

-- What fails, and the clock.
pub record ServiceEnv : Type 0 where
  pub database_ok : Bool
  pub now : ℕ

abbrev pub or_no_citations : Option Text → Text
or_no_citations none = lit "[]"
or_no_citations (some c) = c

abbrev pub ReportStep : Type 0 → Type 0
ReportStep A = ReportTables × Result ServiceError A

-- `Create`.
unfoldable pub create_report : ServiceEnv → CreateReport → ReportTables → ReportStep ReportRow
unfolding is_empty trim_space
create_report env p t =
    let row : ReportRow = record {
      id = t.next_id;
      tenant_id = p.tenant_id;
      type = p.type;
      title = p.title;
      content = p.content;
      citations = or_no_citations p.citations;
      focus = p.focus;
      schedule_id = p.schedule_id;
      generated_at = p.generated_at;
    } in
    if is_empty (trim_space p.tenant_id)
    then (t, err invalid_tenant_id)
    else if not env.database_ok
    then (t, err unavailable)
    else (record t { reports = row ∷ t.reports; next_id = suc t.next_id }, ok row)

-- The page and its size that are used; 0 is no page.
unfoldable pub report_page : ℕ → ℕ → ℕ × ℕ
report_page page size =
    ((if ltb page 1 then 1 else page), (if ltb size 1 || ltb 100 size then 20 else size))

-- The offset as the bits of an int32, negative from 2 ^ 31 on.
unfoldable pub report_offset : ℕ × ℕ → ℕ
report_offset p = (p.0 - 1) * p.1 % 0x100000000

pub record ReportPage : Type 0 where
  pub reports : List ReportRow
  pub total_count : ℕ
  pub page : ℕ
  pub page_size : ℕ

abbrev pub of_tenant : Text → List ReportRow → List ReportRow
unfolding keep_if text_eq
of_tenant tenant rows = keep_if (λ (r : ReportRow). text_eq r.tenant_id tenant) rows

-- A limit and an offset; the database refuses a negative one.
abbrev pub selected : List ReportRow → ℕ × ℕ → Result ServiceError ReportPage
unfolding report_offset
selected rows p =
    if leb 0x80000000 (report_offset p)
    then err unavailable
    else ok (record {
      reports = take p.1 (drop (report_offset p) rows);
      total_count = length rows;
      page = p.0;
      page_size = p.1;
    })

-- `ListByTenant`.
unfoldable pub list_reports :
    (List ReportRow → List ReportRow)
    → ServiceEnv
    → ReportTables
    → Text
    → ℕ
    → ℕ
    → Result ServiceError ReportPage
unfolding is_empty trim_space report_page selected of_tenant
list_reports by_time env t tenant page size =
    if is_empty (trim_space tenant)
    then err invalid_tenant_id
    else if not env.database_ok
    then err unavailable
    else selected (by_time (of_tenant tenant t.reports)) (report_page page size)

-- `TrackGenerationJob`; a task is tracked at most once.
unfoldable pub track_generation_job :
    ServiceEnv → Text → Text → Text → Text → ReportTables → ReportStep (Unit {0})
unfolding is_empty trim_space any_of text_eq
track_generation_job env tenant task report_type focus t =
    let row : JobRow = record {
      tenant_id = tenant;
      task_id = task;
      report_type = report_type;
      focus = trim_space focus;
      status = lit "queued";
      error = [];
      finished_at = none;
    } in
    if is_empty (trim_space tenant)
    then (t, err invalid_tenant_id)
    else if is_empty (trim_space task)
    then (t, err invalid_task_id)
    else if is_empty (trim_space report_type)
    then (t, err invalid_report_type)
    else if not env.database_ok || any_of (λ (j : JobRow). text_eq j.task_id task) t.jobs
    then (t, err unavailable)
    else (record t { jobs = row ∷ t.jobs }, ok tt)

-- The limit that is used, of one that is not negative.
unfoldable pub job_limit : ℕ → ℕ
job_limit limit = if ltb limit 1 then 10 else if ltb 50 limit then 50 else limit

-- `ListGenerationJobs`.
unfoldable pub list_generation_jobs :
    ServiceEnv → ReportTables → Text → ℕ → Result ServiceError (List JobRow)
unfolding is_empty trim_space keep_if text_eq job_limit
list_generation_jobs env t tenant limit =
    if is_empty (trim_space tenant)
    then err invalid_tenant_id
    else if not env.database_ok
    then err unavailable
    else ok (take (job_limit limit) (keep_if (λ (j : JobRow). text_eq j.tenant_id tenant) t.jobs))

abbrev pub with_outcome : Text → Text → Text → Option ℕ → JobRow → JobRow
unfolding text_eq
with_outcome task status error finished_at j =
    if text_eq j.task_id task
    then record j { status = status; error = error; finished_at = finished_at }
    else j

-- `updateGenerationJob`.
unfoldable pub update_generation_job :
    ServiceEnv → Text → Text → Text → Option ℕ → ReportTables → ReportStep (Unit {0})
unfolding with_outcome
update_generation_job env task status error finished_at t =
    if not env.database_ok
    then (t, err unavailable)
    else (record t { jobs = map (with_outcome task status error finished_at) t.jobs }, ok tt)

-- `MarkGenerationJobRunning`, `MarkGenerationJobSucceeded` and `MarkGenerationJobFailed`.
unfoldable pub mark_generation_job :
    ServiceEnv → JobStatus → Text → Text → ReportTables → ReportStep (Unit {0})
unfolding update_generation_job
mark_generation_job env running task message =
    update_generation_job env task (lit "running") [] none
mark_generation_job env succeeded task message =
    update_generation_job env task (lit "succeeded") [] (some env.now)
mark_generation_job env failed task message =
    update_generation_job env task (lit "failed") message (some env.now)
