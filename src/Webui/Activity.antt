-- ===== src/Webui/Activity.antt =====
-- The recent report jobs of internal/webui/mapper.go: what the queue says now goes before what the
-- database has recorded.
pub mod Shown
use agentic_demo.Prelude.{
  ℕ, Option, none, some, List, [], map, Text, lit, text_eq, ℤ, if◌then◌else◌,
}
use agentic_demo.Queue.Inspector.{JobState}
use agentic_demo.Webui.Labels.{report_type_label, report_type_intent, format_time_ago}

-- `GenerationJob`, as far as it is shown; `age` is the time since it was enqueued, in seconds.
pub record GenerationJob : Type 0 where
  pub id : Text
  pub task_id : Text
  pub report_type : Text
  pub focus : Text
  pub status : Text
  pub error : Text
  pub age : ℤ

pub record StatusMeta : Type 0 where
  pub status : Text
  pub label : Text
  pub intent : Text
  pub error : Text

-- `generationStatusMeta`.
unfoldable pub generation_status_meta : Text → Text → StatusMeta
unfolding text_eq
generation_status_meta status message =
    if text_eq status (lit "queued")
    then record { status = lit "queued"; label = lit "Queued"; intent = lit "info"; error = [] }
    else if text_eq status (lit "running")
    then record { status = lit "running"; label = lit "Running"; intent = lit "info"; error = [] }
    else if text_eq status (lit "succeeded")
    then record {
      status = lit "succeeded";
      label = lit "Succeeded";
      intent = lit "success";
      error = [];
    }
    else if text_eq status (lit "failed")
    then record {
      status = lit "failed";
      label = lit "Failed";
      intent = lit "error";
      error = message;
    }
    else record { status = lit "unknown"; label = lit "Unknown"; intent = lit "muted"; error = [] }

pub record GenerationActivityItem : Type 0 where
  pub id : Text
  pub type_label : Text
  pub type_intent : Text
  pub focus : Text
  pub enqueued_at : Text
  pub meta : StatusMeta

abbrev pub observed : GenerationJob → Option JobState → StatusMeta
unfolding generation_status_meta
observed job none = generation_status_meta job.status job.error
observed job (some state) = generation_status_meta state.status state.error

-- The body of the loop; `states` is the map by the identifiers of tasks.
unfoldable pub activity_item : (Text → Option JobState) → GenerationJob → GenerationActivityItem
unfolding observed report_type_label report_type_intent format_time_ago
activity_item states job = record {
  id = job.id;
  type_label = report_type_label job.report_type;
  type_intent = report_type_intent job.report_type;
  focus = job.focus;
  enqueued_at = format_time_ago job.age;
  meta = observed job (states job.task_id);
}

-- `MapGenerationActivity`.
unfoldable pub map_generation_activity :
    List GenerationJob → (Text → Option JobState) → List GenerationActivityItem
unfolding activity_item
map_generation_activity jobs states = map (activity_item states) jobs
