-- ===== src/Budget/Service.antt =====
-- internal/budget/service.go: the budget status, the monthly budget, and invoices. The tables stand
-- for internal/budget/repository.go; a statement that fails is a switch of the environment.
pub mod Invoices
use agentic_demo.Prelude.{
  ℕ, zero, suc, ◌+◌, ◌*◌, ◌-◌, Bool, true, false, ◌&&◌, ◌||◌, not, Option, none, some, List, [],
  ◌∷◌, ◌++◌, map, keep_if, Text, text_eq, is_empty, trim_space, ℤ, pos, negsuc, sub_ℕ, Result, ok,
  err, ◌>>=◌, ltb, leb, ◌==◌, if◌then◌else◌,
}
use agentic_demo.Budget.Checker.{BudgetStatus, Percent}

pub data BudgetError : Type 0 where
  invalid_tenant_id invalid_budget invalid_period not_found unavailable : BudgetError

pub data InvoiceStatus : Type 0 where
  draft issued paid overdue : InvoiceStatus

pub record InvoiceLineItem : Type 0 where
  pub model : Text
  pub input_tokens : ℕ
  pub output_tokens : ℕ
  pub tool_calls : ℕ
  pub embedding_tokens : ℕ
  pub reports_generated : ℕ
  pub cost : ℕ

pub record Invoice : Type 0 where
  pub id : ℕ
  pub tenant_id : Text
  pub period_start : ℕ
  pub period_end : ℕ
  pub total_cost : ℕ
  pub line_items : List InvoiceLineItem
  pub status : InvoiceStatus

-- A row of usage_daily, with its date as a number that orders dates.
pub record DailyRow : Type 0 where
  pub tenant_id : Text
  pub date : ℕ
  pub line : InvoiceLineItem

-- The amounts of usage_daily are those of its column; sums are exact.
pub record Tables : Type 0 where
  pub budgets : Text → Option ℤ
  pub usage_daily : List DailyRow
  pub invoices : List Invoice
  pub next_id : ℕ
  pub reachable : Bool

abbrev blank : Text → Bool
blank tenant = is_empty (trim_space tenant)

-- Whether the budget is positive, the remaining amount, and the percentage, of GetBudgetStatus.
abbrev pub status_parts : Text → ℤ → ℕ → BudgetStatus
status_parts tenant (pos (suc b)) spent = record {
  tenant_id = tenant;
  monthly_budget = pos (suc b);
  month_to_date_cost = spent;
  remaining_budget = pos (suc b - spent);
  percent_used = record { num = spent * 100; den = suc b };
  is_exceeded = leb (suc b) spent;
}
status_parts tenant budget spent = record {
  tenant_id = tenant;
  monthly_budget = budget;
  month_to_date_cost = spent;
  remaining_budget = pos 0;
  percent_used = record { num = 0; den = 1 };
  is_exceeded = false;
}

or_unavailable {ℓ} : {A : Type ℓ} → Option A → Result BudgetError A
or_unavailable none = err unavailable
or_unavailable (some a) = ok a

-- `GetBudgetStatus`; `usage` is the cost of the month that the reader returns.
unfoldable pub get_budget_status : Tables → Option ℕ → Text → Result BudgetError BudgetStatus
unfolding or_unavailable
get_budget_status db usage tenant = if blank tenant then err invalid_tenant_id else do
  budget ← or_unavailable (db.budgets tenant)
  spent ← or_unavailable usage
  ok (status_parts tenant budget spent)

abbrev is_negative : ℤ → Bool
is_negative (pos n) = false
is_negative (negsuc n) = true

-- `SetMonthlyBudget`.
unfoldable pub set_monthly_budget : Tables → Text → ℤ → Result BudgetError Tables
set_monthly_budget db tenant budget =
    if blank tenant
    then err invalid_tenant_id
    else if is_negative budget
    then err invalid_budget
    else if db.reachable
    then ok (record db { budgets = λ t. if text_eq t tenant then some budget else db.budgets t })
    else err unavailable

unfoldable pub find_invoice : ℕ → List Invoice → Option Invoice
find_invoice id [] = none
find_invoice id (i ∷ is) = if i.id == id then some i else find_invoice id is

abbrev owned_by : Text → Option Invoice → Result BudgetError Invoice
owned_by tenant none = err not_found
owned_by tenant (some i) = if text_eq i.tenant_id tenant then ok i else err not_found

-- `GetInvoice`.
unfoldable pub get_invoice : Tables → Text → ℕ → Result BudgetError Invoice
unfolding find_invoice
get_invoice db tenant id = owned_by tenant (find_invoice id db.invoices)

-- What the database makes of a time as a DATE, of an amount as a NUMERIC(12,6), and of rows that it
-- orders by date, newest first, and model.
pub record Columns : Type 0 where
  pub date_of : ℕ → ℕ
  pub amount : ℕ → ℕ
  pub order : List DailyRow → List DailyRow

-- The `WHERE` of GetUsageDailySummary: a tenant and a period, both ends included.
abbrev pub in_period : Text → ℕ → ℕ → DailyRow → Bool
unfolding text_eq
in_period tenant from to r = text_eq r.tenant_id tenant && (leb from r.date && leb r.date to)

-- GetDailySummary. The source's query groups by model and date, which are unique in the table.
unfoldable pub daily_summary : Columns → Text → ℕ → ℕ → List DailyRow → List DailyRow
unfolding keep_if in_period
daily_summary columns tenant from to rows =
    columns.order (keep_if (in_period tenant (columns.date_of from) (columns.date_of to)) rows)

-- The loop that adds up the line items.
unfoldable pub total_from : ℕ → List InvoiceLineItem → ℕ
total_from total [] = total
total_from total (l ∷ ls) = total_from (total + l.cost) ls

-- `GenerateInvoice`. A time 0 is the zero time; the invoice is the row that is stored.
unfoldable pub generate_invoice :
    Columns → Tables → Text → ℕ → ℕ → Result BudgetError (Tables × Invoice)
unfolding daily_summary total_from
generate_invoice columns db tenant from to =
    if blank tenant
    then err invalid_tenant_id
    else if (from == 0) || ((to == 0) || not (ltb from to))
    then err invalid_period
    else if db.reachable
    then (let items =
          map (λ (r : DailyRow). r.line) (daily_summary columns tenant from to db.usage_daily) in
        let invoice : Invoice = record {
          id = db.next_id;
          tenant_id = tenant;
          period_start = columns.date_of from;
          period_end = columns.date_of to;
          total_cost = columns.amount (total_from 0 items);
          line_items = items;
          status = draft;
        } in
        ok (
          record db { invoices = db.invoices ++ (invoice ∷ []); next_id = suc db.next_id },
          invoice,
        ))
    else err unavailable
