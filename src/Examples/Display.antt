-- ===== src/Examples/Display.antt =====
-- Inputs for the pages: a schedule at half past nine, and a report job that is tried again.
use agentic_demo.Prelude.{
  ℕ, ◌≡◌, refl, Option, none, some, [], ◌++◌, Text, lit, text_eq, is_space, trim_space, is_empty,
  trim_left, pos, decimal, ok, arith, if◌then◌else◌,
}
use agentic_demo.Queue.Inspector.{retry, JobState, TaskLookup, task_info, get_job_state}
use agentic_demo.Webui.Cron.{parse_clock, build_cron_expr}
use agentic_demo.Webui.Cron.RoundTrip.{
  weekly, kind_text, parts_again, clock_text, cron_parts-build_cron_expr,
}
use agentic_demo.Webui.Cron.Described.{
  day_ordinal, describe, weekday, describe_cron-build_cron_expr,
}
use agentic_demo.Webui.Activity.{GenerationJob, activity_item}
use agentic_demo.Webui.Activity.Shown.{Shown, activity_item-Shown}

abbrev parse : Text → Option (ℕ × ℕ)
parse s = if text_eq s (lit "09:30") then some (9, 30) else none

cron_parts-build_cron_expr_example :
    parts_again (build_cron_expr parse (kind_text weekly) (lit "09:30") (lit "2") [])
    ≡ some (clock_text (9, 30), lit "2", lit "*")
unfolding is_space is_empty trim_space trim_left text_eq
cron_parts-build_cron_expr_example =
    cron_parts-build_cron_expr parse weekly (lit "09:30") (lit "2") [] (9, 30) refl refl
      (omega arith, omega arith) (refl, tt) tt

half_past_nine : parse_clock parse (lit "09:30") ≡ ok (9, 30)
unfolding parse_clock is_empty trim_space trim_left is_space text_eq
half_past_nine = refl

describe_cron-build_cron_expr_example :
    (describe (build_cron_expr parse (lit "daily") (lit "09:30") [] [])
      ≡ some (lit "Every day at " ++ clock_text (9, 30)))
    × (describe (build_cron_expr parse (lit "weekly") (lit "09:30") (decimal 1) [])
        ≡ some (lit "Every " ++ (weekday 1 ++ (lit " at " ++ clock_text (9, 30)))))
    × (describe (build_cron_expr parse (lit "monthly") (lit "09:30") [] (decimal 22))
        ≡ some (
            lit "Monthly"
            ++ ((lit " on the " ++ lit "22nd") ++ (lit " at " ++ clock_text (9, 30)))))
unfolding day_ordinal
describe_cron-build_cron_expr_example =
    describe_cron-build_cron_expr parse (lit "09:30") (9, 30) half_past_nine
      (omega arith, omega arith) 1 22 (omega arith) (omega arith) []

abbrev job : GenerationJob
job = record {
  id = lit "1";
  task_id = lit "task";
  report_type = lit "daily";
  focus = [];
  status = lit "failed";
  error = lit "timeout";
  age = pos 90;
}

abbrev lookup : TaskLookup
lookup = task_info (record { id = lit "task"; state = retry; last_err = lit "timeout" })

abbrev states : Text → Option JobState
states k = some (record { id = lit "task"; status = lit "queued"; error = lit "timeout" })

activity_item-Shown_example : Shown job lookup (activity_item states job).meta
unfolding get_job_state
activity_item-Shown_example = activity_item-Shown states job lookup refl
