-- ===== src/Webui/Activity/Shown.antt =====
-- What the page shows of a report job, by what the queue library says of its task.
use agentic_demo.Prelude.{◌≡◌, refl, Option, none, some, [], Text, lit, text_eq, ok, err, Result}
use agentic_demo.Queue.Inspector.{
  TaskState, pending, scheduled, retry, aggregating, active, completed, archived, other_state,
  JobState, TaskLookup, task_info, task_not_found, queue_not_found, lookup_failed, InspectError,
  map_task_state, get_job_state,
}
use agentic_demo.Webui.Activity.{
  GenerationJob, StatusMeta, generation_status_meta, observed, activity_item,
}

-- The state of a lookup, if there is one.
abbrev pub live_state : Result InspectError JobState → Option JobState
live_state (ok s) = some s
live_state (err e) = none

abbrev pub ShownAs : Text → Text → StatusMeta → Type 0
ShownAs label error m = (m.label ≡ label) × (m.error ≡ error)

-- How a task is shown by its state and its last error.
abbrev pub ShownTask : TaskState → Text → StatusMeta → Type 0
ShownTask pending e m = ShownAs (lit "Queued") [] m
ShownTask scheduled e m = ShownAs (lit "Queued") [] m
ShownTask retry e m = ShownAs (lit "Queued") [] m
ShownTask aggregating e m = ShownAs (lit "Queued") [] m
ShownTask active e m = ShownAs (lit "Running") [] m
ShownTask completed e m = ShownAs (lit "Succeeded") [] m
ShownTask archived e m = ShownAs (lit "Failed") e m
ShownTask other_state e m = ShownAs (lit "Unknown") [] m

abbrev pub Shown : GenerationJob → TaskLookup → StatusMeta → Type 0
Shown job (task_info i) m = ShownTask i.state i.last_err m
Shown job r m = m ≡ generation_status_meta job.status job.error

shown-task :
    (state : TaskState) (e : Text)
    → ShownTask state e (generation_status_meta (map_task_state state) e)
unfolding generation_status_meta map_task_state text_eq
shown-task pending e = (refl, refl)
shown-task scheduled e = (refl, refl)
shown-task retry e = (refl, refl)
shown-task aggregating e = (refl, refl)
shown-task active e = (refl, refl)
shown-task completed e = (refl, refl)
shown-task archived e = (refl, refl)
shown-task other_state e = (refl, refl)

observed-Shown :
    (job : GenerationJob) (lookup : TaskLookup)
    → Shown job lookup (observed job (live_state (get_job_state lookup)))
unfolding observed get_job_state
observed-Shown job (task_info i) = shown-task i.state i.last_err
observed-Shown job task_not_found = refl
observed-Shown job queue_not_found = refl
observed-Shown job lookup_failed = refl

-- A report job whose task the queue knows is shown by the state of the task, whatever the database has
-- recorded: one that waits, also for another attempt, as queued, and only a task that is given up
-- as failed, with its last error; a job whose task the queue does not tell of is shown as recorded.
pub activity_item-Shown :
    (states : Text → Option JobState) (job : GenerationJob) (lookup : TaskLookup)
    → states job.task_id ≡ live_state (get_job_state lookup)
    → Shown job lookup (activity_item states job).meta
unfolding activity_item
activity_item-Shown states job lookup h = rw h (observed-Shown job lookup)
