-- ===== src/Examples/Spending.antt =====
-- Inputs for the budget module.
use agentic_demo.Prelude.{
  ℕ, suc, ◌+◌, ◌*◌, ◌≤◌, ◌↔◌, Bool, true, false, Option, none, some, [], ◌∷◌, Text, lit, pos,
  Result, ok, err, arith,
}
use agentic_demo.Budget.Service.{Tables, Invoice, InvoiceLineItem, draft, DailyRow, Columns}

abbrev acme : Text
acme = lit "acme"

abbrev line : InvoiceLineItem
line = record {
  model = lit "qwen-plus";
  input_tokens = 100;
  output_tokens = 20;
  tool_calls = 0;
  embedding_tokens = 0;
  reports_generated = 1;
  cost = 1600;
}

abbrev march : Invoice
march = record {
  id = 1;
  tenant_id = acme;
  period_start = 20260301;
  period_end = 20260331;
  total_cost = 1600;
  line_items = line ∷ [];
  status = draft;
}

abbrev paid_row : DailyRow
paid_row = record { tenant_id = acme; date = 20260305; line = line }

-- A row of the month before, and one of another tenant.
abbrev before : Tables
before = record {
  budgets = λ t. some (pos 5000);
  usage_daily =
      paid_row
      ∷ record { tenant_id = acme; date = 20260228; line = line }
      ∷ record { tenant_id = lit "rival"; date = 20260305; line = line }
      ∷ [];
  invoices = [];
  next_id = 1;
  reachable = true;
}

abbrev after : Tables
after = record before { invoices = march ∷ []; next_id = 2 }

abbrev columns : Columns
columns = record { date_of = λ d. d; amount = λ a. a; order = λ rows. rows }
