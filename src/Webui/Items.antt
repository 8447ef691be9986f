-- ===== src/Webui/Items.antt =====
-- The view models of sources, reports, invoices, usage, the dashboard and the settings of
-- internal/webui/mapper.go. JSON, Markdown and the names of months are written by functions of the
-- libraries, which are arguments.
use agentic_demo.Prelude.{
  ℕ, suc, ◌+◌, Bool, false, not, Option, none, some, List, [], ◌∷◌, ◌++◌, map, Text, lit, text_eq,
  is_empty, ◌==◌, ℤ, pos, decimal, if◌then◌else◌,
}
use agentic_demo.Budget.Checker.{Percent, BudgetStatus}
use agentic_demo.Budget.Service.{Invoice, InvoiceLineItem}
use agentic_demo.Scheduling.Service.{ReportSchedule}
use agentic_demo.Webui.Labels.{
  Formats, format_date, format_date_only, format_tokens, format_time_ago, report_type_label,
  report_type_intent, event_type_meta, invoice_status_label, invoice_status_intent,
  schedule_type_label, schedule_type_intent, schedule_format_label, budget_intent, status_intent,
  source_type_label,
}
use agentic_demo.Webui.Cron.{describe_cron}

-- `DataSource`, as far as it is shown; `synced` is the time since the last synchronisation.
pub record DataSource : Type 0 where
  pub id : Text
  pub source_type : Text
  pub name : Text
  pub config : Text
  pub credentials : Text
  pub status : Text
  pub synced : Option ℤ
  pub last_sync_status : Text

pub record SourceItem : Type 0 where
  pub id : Text
  pub name : Text
  pub source_type : Text
  pub source_label : Text
  pub status : Text
  pub status_intent : Text
  pub last_sync_at : Text
  pub last_sync_status : Text

abbrev pub synced_text : Option ℤ → Text
unfolding format_time_ago
synced_text none = []
synced_text (some age) = format_time_ago age

-- `MapSourceItem`.
unfoldable pub map_source_item : DataSource → SourceItem
unfolding synced_text source_type_label status_intent
map_source_item ds = record {
  id = ds.id;
  name = ds.name;
  source_type = ds.source_type;
  source_label = source_type_label ds.source_type;
  status = ds.status;
  status_intent = status_intent ds.status;
  last_sync_at = synced_text ds.synced;
  last_sync_status = ds.last_sync_status;
}

pub record SourceDetailData : Type 0 where
  pub source : SourceItem
  pub config_json : Text
  pub has_credentials : Bool

-- `PrettyJSON`: a text that is not JSON, or that cannot be written again, is shown as it is.
unfoldable pub pretty_json : (Text → Option Text) → Text → Text
pretty_json indent [] = []
pretty_json indent (c ∷ raw) = elim (indent (c ∷ raw)) [ none ↦ c ∷ raw | some s ↦ s ]

-- `MapSourceDetail`: the credentials themselves are never shown.
unfoldable pub map_source_detail : (Text → Option Text) → DataSource → SourceDetailData
unfolding map_source_item pretty_json
map_source_detail indent ds = record {
  source = map_source_item ds;
  config_json = pretty_json indent ds.config;
  has_credentials = not (is_empty ds.credentials);
}

-- `CountActiveSources`.
unfoldable pub count_active_sources : List DataSource → ℕ
unfolding text_eq
count_active_sources [] = 0
count_active_sources (s ∷ srcs) =
    let rest = count_active_sources srcs in
    if text_eq s.status (lit "active") then suc rest else rest

-- `firstString`: `field` reads a key of the object as a string, if it is one.
unfoldable pub first_string : (Text → Option Text) → List Text → Text
first_string field [] = []
first_string field (k ∷ keys) = elim (field k) [
  | none ↦ first_string field keys
  | some [] ↦ first_string field keys
  | some (c ∷ s) ↦ c ∷ s
]

pub record Citation : Type 0 where
  pub title : Text
  pub url : Text
  pub source : Text

abbrev pub citation : (Text → Option Text) → Citation
unfolding first_string
citation field = record {
  title = first_string field (lit "title" ∷ lit "name" ∷ lit "reference" ∷ []);
  url = first_string field (lit "url" ∷ lit "link" ∷ []);
  source = first_string field (lit "source" ∷ lit "snippet" ∷ []);
}

abbrev pub citations : Option (List (Text → Option Text)) → List Citation
unfolding citation
citations none = []
citations (some objects) = map citation objects

-- `ParseCitations`: `objects` decodes an array of objects.
unfoldable pub parse_citations : (Text → Option (List (Text → Option Text))) → Text → List Citation
unfolding citations
parse_citations objects [] = []
parse_citations objects (c ∷ raw) = citations (objects (c ∷ raw))

-- A stored report as far as it is shown.
pub record StoredReport : Type 0 where
  pub id : Text
  pub type : Text
  pub title : Text
  pub focus : Text
  pub generated_at : ℕ

pub record ReportItem : Type 0 where
  pub id : Text
  pub type : Text
  pub type_label : Text
  pub type_intent : Text
  pub title : Text
  pub focus : Text
  pub generated_at : Text

-- `MapReportItem`.
unfoldable pub map_report_item : Formats → StoredReport → ReportItem
unfolding report_type_label report_type_intent format_date
map_report_item f r = record {
  id = r.id;
  type = r.type;
  type_label = report_type_label r.type;
  type_intent = report_type_intent r.type;
  title = r.title;
  focus = r.focus;
  generated_at = format_date f r.generated_at;
}

pub record ScheduleItem : Type 0 where
  pub id : ℕ
  pub type_label : Text
  pub type_intent : Text
  pub cron_expr : Text
  pub cron_human : Text
  pub focus : Option Text
  pub format : Text
  pub format_label : Text
  pub enabled : Bool

-- `MapScheduleItem`.
unfoldable pub map_schedule_item : ReportSchedule → ScheduleItem
unfolding schedule_type_label schedule_type_intent schedule_format_label describe_cron
map_schedule_item s = record {
  id = s.id;
  type_label = schedule_type_label s.type;
  type_intent = schedule_type_intent s.type;
  cron_expr = s.cron_expr;
  cron_human = describe_cron s.cron_expr;
  focus = s.focus;
  format = s.format;
  format_label = schedule_format_label s.format;
  enabled = s.enabled;
}

pub record InvoiceRow : Type 0 where
  pub model : Text
  pub input_tokens : Text
  pub output_tokens : Text
  pub tool_calls : Text
  pub embedding_tokens : Text
  pub reports_generated : Text
  pub cost : Text

abbrev pub invoice_row : Formats → InvoiceLineItem → InvoiceRow
unfolding format_tokens decimal
invoice_row f li = record {
  model = li.model;
  input_tokens = format_tokens f li.input_tokens;
  output_tokens = format_tokens f li.output_tokens;
  tool_calls = decimal li.tool_calls;
  embedding_tokens = format_tokens f li.embedding_tokens;
  reports_generated = decimal li.reports_generated;
  cost = f.usd li.cost;
}

pub record InvoiceDetailData : Type 0 where
  pub id : ℕ
  pub period_label : Text
  pub period_start : Text
  pub period_end : Text
  pub status_label : Text
  pub status_intent : Text
  pub total_cost : Text
  pub line_items : List InvoiceRow

-- The year, the month's name in three letters and the two digits of the day of a time.
pub record DateParts : Type 0 where
  pub year : ℕ
  pub month : Text
  pub day : Text

-- `invoicePeriodLabel`: the year of the start is left out where it is that of the end.
unfoldable pub invoice_period_label : (ℕ → DateParts) → ℕ → ℕ → Text
unfolding decimal
invoice_period_label parts start end =
    let s = parts start in
    let e = parts end in
    let last = e.month ++ (lit " " ++ (e.day ++ (lit ", " ++ decimal e.year))) in
    if start == 0
    then []
    else if end == 0
    then []
    else if s.year == e.year
    then s.month ++ (lit " " ++ (s.day ++ (lit " — " ++ last)))
    else s.month ++ (lit " " ++ (s.day ++ (lit ", " ++ (decimal s.year ++ (lit " — " ++ last)))))

-- `MapInvoiceDetail`.
unfoldable pub map_invoice_detail : Formats → (ℕ → DateParts) → Invoice → InvoiceDetailData
unfolding invoice_period_label format_date_only invoice_status_label invoice_status_intent
    invoice_row
map_invoice_detail f parts inv = record {
  id = inv.id;
  period_label = invoice_period_label parts inv.period_start inv.period_end;
  period_start = format_date_only f inv.period_start;
  period_end = format_date_only f inv.period_end;
  status_label = invoice_status_label inv.status;
  status_intent = invoice_status_intent inv.status;
  total_cost = f.usd inv.total_cost;
  line_items = map (invoice_row f) inv.line_items;
}

pub record BudgetFields : Type 0 where
  pub monthly_budget : Text
  pub mtd_cost : Text
  pub remaining : Text
  pub percent_used : Percent
  pub intent : Text
  pub exceeded : Bool

-- The fields of the budget in `MapSettings`; `usd` writes an amount that may be negative.
unfoldable pub settings_budget : (ℤ → Text) → Option BudgetStatus → BudgetFields
unfolding budget_intent
settings_budget usd none = record {
  monthly_budget = lit "$0.00";
  mtd_cost = lit "$0.00";
  remaining = lit "$0.00";
  percent_used = record { num = 0; den = 1 };
  intent = lit "success";
  exceeded = false;
}
settings_budget usd (some b) = record {
  monthly_budget = usd b.monthly_budget;
  mtd_cost = usd (pos b.month_to_date_cost);
  remaining = usd b.remaining_budget;
  percent_used = b.percent_used;
  intent = budget_intent b.percent_used;
  exceeded = b.is_exceeded;
}

-- The payload of a usage event, as the decoder reads it.
pub record EventPayload : Type 0 where
  pub type : Text
  pub llm : Option (Text × (ℕ × ℕ))
  pub tool : Option (Text × Bool)
  pub embedding : Option (Text × ℕ)

abbrev pub labelled : Text → Option Text → Text
unfolding event_type_meta
labelled type none = (event_type_meta type).0
labelled type (some s) = s

abbrev pub llm_text : Option (Text × (ℕ × ℕ)) → Option Text
unfolding decimal
llm_text none = none
llm_text (some (model, (input, output))) =
    some (model ++ (lit " · " ++ (decimal (input + output) ++ lit " tokens")))

abbrev pub tool_text : Option (Text × Bool) → Option Text
tool_text none = none
tool_text (some (tool, success)) =
    some (tool ++ (lit " · " ++ (if success then lit "succeeded" else lit "failed")))

abbrev pub embedding_text : Option (Text × ℕ) → Option Text
unfolding decimal
embedding_text none = none
embedding_text (some (model, chunks)) =
    some (model ++ (lit " · " ++ (decimal chunks ++ lit " chunks")))

-- `eventSummary`; a payload that is not JSON is `none`.
unfoldable pub event_summary : Text → Option EventPayload → Text
unfolding labelled llm_text embedding_text text_eq
event_summary event_type none = labelled event_type none
event_summary event_type (some p) = labelled p.type (
    if text_eq p.type (lit "llm_usage")
    then llm_text p.llm
    else if text_eq p.type (lit "tool_usage")
    then tool_text p.tool
    else if text_eq p.type (lit "embedding_usage")
    then embedding_text p.embedding
    else none)
