-- ===== src/Queue/Inspector.antt =====
-- internal/queue/inspector.go: the state of a queued job, as the queue library reports it.
use agentic_demo.Prelude.{Text, lit, Result, ok, err}

-- The states of a task in the library; one that it adds later is `other_state`.
pub data TaskState : Type 0 where
  pending scheduled retry aggregating active completed archived other_state : TaskState

pub record TaskInfo : Type 0 where
  pub id : Text
  pub state : TaskState
  pub last_err : Text

pub record JobState : Type 0 where
  pub id : Text
  pub status : Text
  pub error : Text

-- What `GetTaskInfo` answers.
pub data TaskLookup : Type 0 where
  task_info : TaskInfo → TaskLookup
  task_not_found queue_not_found lookup_failed : TaskLookup

pub data InspectError : Type 0 where
  job_not_found inspect_failed : InspectError

-- `mapTaskState`.
unfoldable pub map_task_state : TaskState → Text
map_task_state pending = lit "queued"
map_task_state scheduled = lit "queued"
map_task_state retry = lit "queued"
map_task_state aggregating = lit "queued"
map_task_state active = lit "running"
map_task_state completed = lit "succeeded"
map_task_state archived = lit "failed"
map_task_state other_state = lit "unknown"

-- `GetJobState`.
unfoldable pub get_job_state : TaskLookup → Result InspectError JobState
unfolding map_task_state
get_job_state (task_info i) =
    ok (record { id = i.id; status = map_task_state i.state; error = i.last_err })
get_job_state task_not_found = err job_not_found
get_job_state queue_not_found = err job_not_found
get_job_state lookup_failed = err inspect_failed
