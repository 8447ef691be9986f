-- ===== src/Webui/Labels.antt =====
-- The labels, intents and formats of internal/webui/mapper.go. Dates and amounts of money are written
-- by functions of the libraries, which are in `Formats`; a time is a number of seconds, 0 for the
-- zero time.
use agentic_demo.Prelude.{
  ℕ, ◌*◌, ◌/◌, ◌||◌, [], ◌++◌, Text, lit, text_eq, is_empty, ltb, leb, ◌==◌, ℤ, pos, negsuc,
  decimal, if◌then◌else◌,
}
use agentic_demo.Budget.Checker.{Percent}
use agentic_demo.Budget.Service.{InvoiceStatus, draft, issued, paid, overdue}
use agentic_demo.Scheduling.Service.{ScheduleType, daily, weekly, monthly, other_type}
use agentic_demo.Tenant.Service.{TenantStatus, active, suspended, deleted}

-- `t.Format` with the two layouts, `$%.2f`, and `%.1f` of a quotient.
pub record Formats : Type 0 where
  pub date_time : ℕ → Text
  pub date_only : ℕ → Text
  pub usd : ℕ → Text
  pub quotient : ℕ → ℕ → Text

-- `FormatDate`.
unfoldable pub format_date : Formats → ℕ → Text
format_date f t = if t == 0 then [] else f.date_time t

-- `formatDateOnly` and `invoiceDate`.
unfoldable pub format_date_only : Formats → ℕ → Text
format_date_only f t = if t == 0 then [] else f.date_only t

-- `FormatTokens`.
unfoldable pub format_tokens : Formats → ℕ → Text
format_tokens f n =
    if leb 1000000 n
    then f.quotient n 1000000 ++ lit "M"
    else if leb 1000 n
    then f.quotient n 1000 ++ lit "K"
    else decimal n

abbrev pub ago : ℕ → Text → Text
ago n unit =
    if n == 1
    then lit "1 " ++ (unit ++ lit " ago")
    else decimal n ++ (lit " " ++ (unit ++ lit "s ago"))

-- `FormatTimeAgo`, by the seconds since the time.
unfoldable pub format_time_ago : ℤ → Text
unfolding decimal
format_time_ago (negsuc n) = lit "just now"
format_time_ago (pos s) =
    if ltb s 60
    then lit "just now"
    else if ltb s 3600
    then ago (s / 60) (lit "minute")
    else if ltb s 86400
    then ago (s / 3600) (lit "hour")
    else ago (s / 86400) (lit "day")

-- `ReportTypeLabel`.
unfoldable pub report_type_label : Text → Text
report_type_label t =
    if text_eq t (lit "daily")
    then lit "Daily"
    else if text_eq t (lit "weekly")
    then lit "Weekly"
    else if text_eq t (lit "monthly")
    then lit "Monthly"
    else if text_eq t (lit "on_demand")
    then lit "On Demand"
    else t

-- `ReportTypeIntent`.
unfoldable pub report_type_intent : Text → Text
report_type_intent t =
    if text_eq t (lit "daily")
    then lit "info"
    else if text_eq t (lit "weekly") || text_eq t (lit "monthly")
    then lit "primary"
    else if text_eq t (lit "on_demand")
    then lit "warning"
    else lit "primary"

-- `eventTypeMeta`: a label and an intent.
unfoldable pub event_type_meta : Text → Text × Text
event_type_meta t =
    if text_eq t (lit "llm_usage")
    then (lit "LLM", lit "info")
    else if text_eq t (lit "tool_usage")
    then (lit "Tool", lit "warning")
    else if text_eq t (lit "embedding_usage")
    then (lit "Embedding", lit "success")
    else (t, lit "info")

-- `InvoiceStatusLabel`.
unfoldable pub invoice_status_label : InvoiceStatus → Text
invoice_status_label draft = lit "Draft"
invoice_status_label issued = lit "Issued"
invoice_status_label paid = lit "Paid"
invoice_status_label overdue = lit "Overdue"

-- `InvoiceStatusIntent`.
unfoldable pub invoice_status_intent : InvoiceStatus → Text
invoice_status_intent draft = lit "muted"
invoice_status_intent issued = lit "info"
invoice_status_intent paid = lit "success"
invoice_status_intent overdue = lit "error"

-- `ScheduleTypeLabel`.
unfoldable pub schedule_type_label : ScheduleType → Text
schedule_type_label daily = lit "Daily"
schedule_type_label weekly = lit "Weekly"
schedule_type_label monthly = lit "Monthly"
schedule_type_label (other_type t) = t

-- `ScheduleTypeIntent`.
unfoldable pub schedule_type_intent : ScheduleType → Text
schedule_type_intent daily = lit "info"
schedule_type_intent t = lit "primary"

-- `ScheduleFormatLabel`.
unfoldable pub schedule_format_label : Text → Text
schedule_format_label f =
    if text_eq f (lit "standard")
    then lit "Standard"
    else if text_eq f (lit "concise")
    then lit "Concise"
    else if text_eq f (lit "detailed")
    then lit "Detailed"
    else if is_empty f
    then lit "Standard"
    else f

-- `BudgetIntent`.
unfoldable pub budget_intent : Percent → Text
budget_intent p =
    if ltb (95 * p.den) p.num
    then lit "error"
    else if leb (80 * p.den) p.num
    then lit "warning"
    else lit "success"

-- `tenantStatusLabel`.
unfoldable pub tenant_status_label : TenantStatus → Text
tenant_status_label active = lit "Active"
tenant_status_label suspended = lit "Suspended"
tenant_status_label deleted = lit "Deleted"

-- `intentForTenantStatus`.
unfoldable pub intent_for_tenant_status : TenantStatus → Text
intent_for_tenant_status active = lit "success"
intent_for_tenant_status suspended = lit "warning"
intent_for_tenant_status deleted = lit "error"

-- `statusIntent`.
unfoldable pub status_intent : Text → Text
status_intent s =
    if text_eq s (lit "active")
    then lit "success"
    else if text_eq s (lit "error")
    then lit "error"
    else lit "muted"

-- `sourceTypeLabel`.
unfoldable pub source_type_label : Text → Text
source_type_label t =
    if text_eq t (lit "file_upload")
    then lit "File Upload"
    else if text_eq t (lit "website")
    then lit "Website"
    else if text_eq t (lit "crm_hubspot")
    then lit "HubSpot CRM"
    else if text_eq t (lit "crm_salesforce")
    then lit "Salesforce CRM"
    else t
