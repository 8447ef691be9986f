-- ===== src/Examples/Handling.antt =====
-- Inputs for the tasks and their handlers.
use agentic_demo.Prelude.{◌≡◌, refl, true, false, Option, none, some, List, [], ◌∷◌, Text, lit, All}
use agentic_demo.Queue.Tasks.{ReportPayload}
use agentic_demo.Queue.Handler.{HandlerEnv, DeliveryEnv, process_report}
use agentic_demo.Queue.Handler.Lifecycle.{Ends, marks, process_report-Ends}
use agentic_demo.Queue.Handler.Recipients.{NeverSent, process_report-NeverSent}

abbrev weekly : ReportPayload
weekly = record {
  tenant_id = lit "acme";
  report_type = lit "weekly";
  focus_areas = lit "sales" ∷ [];
  delivery_method = lit "email";
  schedule_id = [];
}

abbrev all_well : HandlerEnv
all_well = record {
  has_limiter = true;
  acquire_ok = true;
  task_id = lit "task-1";
  generated = some (lit "report");
  has_report_service = true;
  stored_id = some (lit "1");
  has_queue = true;
}

process_report-Ends_example :
    Ends (process_report all_well (some weekly)).1 (marks (process_report all_well (some weekly)).0)
unfolding agentic_demo.Prelude.is_empty
process_report-Ends_example = process_report-Ends all_well weekly refl refl

abbrev mail : DeliveryEnv
mail = record {
  has_services = true;
  is_uuid = λ t. true;
  fetch = λ t. some (lit "report");
  deliver_ok = true;
}

process_report-NeverSent_example : All (NeverSent mail) (process_report all_well (some weekly)).0
process_report-NeverSent_example = process_report-NeverSent mail all_well weekly
