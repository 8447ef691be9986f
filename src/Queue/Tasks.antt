-- ===== src/Queue/Tasks.antt =====
-- internal/queue/tasks.go, and the routes of RegisterHandlers in internal/queue/handler.go. A task
-- carries its payload as it is: the JSON in between is left out.
pub mod Routes
use agentic_demo.Prelude.{
  Bool, true, false, ◌||◌, Option, none, some, List, [], ◌∷◌, Text, lit, text_eq, is_empty, Result,
  ok, err, if◌then◌else◌,
}

pub record IngestionPayload : Type 0 where
  pub tenant_id : Text
  pub source_id : Text

pub record ReportPayload : Type 0 where
  pub tenant_id : Text
  pub report_type : Text
  pub focus_areas : List Text
  pub delivery_method : Text
  pub schedule_id : Text

pub record DeliveryPayload : Type 0 where
  pub tenant_id : Text
  pub report_id : Text
  pub recipient_email : Text

pub data Payload : Type 0 where
  ingestion : IngestionPayload → Payload
  report : ReportPayload → Payload
  delivery : DeliveryPayload → Payload

-- A `Job`, and the task that `newTask` makes.
pub record Job : Type 0 where
  pub type : Text
  pub queue : Text
  pub payload : Payload

pub data TaskError : Type 0 where
  tenant_id_required source_id_required report_type_required report_id_required
        invalid_report_type :
      TaskError

-- `NewIngestionTask`.
unfoldable pub new_ingestion_task : IngestionPayload → Result TaskError Job
new_ingestion_task p =
    if is_empty p.tenant_id
    then err tenant_id_required
    else if is_empty p.source_id
    then err source_id_required
    else ok
        (record { type = lit "ingestion:manual"; queue = lit "ingestion"; payload = ingestion p })

-- `reportTypeToTaskType`.
unfoldable pub report_type_to_task_type : Text → Option Text
report_type_to_task_type t =
    if text_eq t (lit "daily")
    then some (lit "report:daily")
    else if text_eq t (lit "weekly")
    then some (lit "report:weekly")
    else if text_eq t (lit "monthly")
    then some (lit "report:monthly")
    else if text_eq t (lit "on_demand")
    then some (lit "report:on_demand")
    else none

abbrev pub typed_report : ReportPayload → Option Text → Result TaskError Job
typed_report p none = err invalid_report_type
typed_report p (some t) = ok (record { type = t; queue = lit "report"; payload = report p })

-- `NewReportTask` and `NewReportJob`.
unfoldable pub new_report_job : ReportPayload → Result TaskError Job
unfolding report_type_to_task_type
new_report_job p =
    if is_empty p.tenant_id
    then err tenant_id_required
    else if is_empty p.report_type
    then err report_type_required
    else typed_report p (report_type_to_task_type p.report_type)

-- `NewDeliveryTask`.
unfoldable pub new_delivery_task : DeliveryPayload → Result TaskError Job
new_delivery_task p =
    if is_empty p.tenant_id
    then err tenant_id_required
    else if is_empty p.report_id
    then err report_id_required
    else ok (record { type = lit "delivery:email"; queue = lit "delivery"; payload = delivery p })

pub data Route : Type 0 where
  ingest_handler report_handler delivery_handler : Route

-- The handler that `RegisterHandlers` sets for a type of task.
unfoldable pub route : Text → Option Route
route t =
    if text_eq t (lit "ingestion:scheduled")
      || (text_eq t (lit "ingestion:manual") || text_eq t (lit "ingestion:file_upload"))
    then some ingest_handler
    else if text_eq t (lit "report:daily")
        || (text_eq t (lit "report:weekly")
            || (text_eq t (lit "report:monthly") || text_eq t (lit "report:on_demand")))
    then some report_handler
    else if text_eq t (lit "delivery:email")
    then some delivery_handler
    else none
