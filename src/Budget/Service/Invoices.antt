-- ===== src/Budget/Service/Invoices.antt =====
-- What internal/budget/service.go promises of invoices.
use agentic_demo.Prelude.{
  ℕ, ◌+◌, ◌≤◌, ◌≡◌, inl, inr, some, List, [], ◌∷◌, map, In, Text, eq_of_text_eq, ok, arith,
  Option-cases,
}
use agentic_demo.Budget.Service.{
  Invoice, InvoiceLineItem, DailyRow, Columns, Tables, find_invoice, get_invoice,
}

-- An invoice that is handed out belongs to the tenant that asks, and is the one that the table holds
-- under the identifier asked for.
get_invoice-owned :
    (db : Tables) (tenant : Text) (id : ℕ) {i : Invoice}
    → get_invoice db tenant id ≡ ok i
    → (i.tenant_id ≡ tenant) × (find_invoice id db.invoices ≡ some i)
unfolding get_invoice
get_invoice-owned db tenant id {i} h = elim (Option-cases (find_invoice id db.invoices)) [
  | inl e ↦ absurd (let k = rw (e, get_invoice) at h in cc)
  | inr (j, e) ↦ ground (arith, e, eq_of_text_eq j.tenant_id tenant)
]

abbrev pub cost_sum : List InvoiceLineItem → ℕ
cost_sum [] = 0
cost_sum (l ∷ ls) = l.cost + cost_sum ls

-- A row of usage_daily that is to be billed.
abbrev pub Billed : Columns → Text → ℕ → ℕ → DailyRow → Type 0
Billed columns tenant from to r =
    (r.tenant_id ≡ tenant) × (columns.date_of from ≤ r.date) × (r.date ≤ columns.date_of to)

-- The lines are those of the rows that are to be billed.
pub record Lines (columns : Columns) (db : Tables) (tenant : Text) (from to : ℕ)
    (rows : List DailyRow) (i : Invoice) : Type 0 where
  pub lines : i.line_items ≡ map (λ (r : DailyRow). r.line) rows
  pub only : (r : DailyRow) → In r rows → In r db.usage_daily × Billed columns tenant from to r
  pub every : (r : DailyRow) → In r db.usage_daily → Billed columns tenant from to r → In r rows

abbrev SameRows : List DailyRow → List DailyRow → Type 0
SameRows rows sorted = (r : DailyRow) → (In r sorted → In r rows) × (In r rows → In r sorted)
