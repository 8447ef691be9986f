-- ===== src/Budget/Checker.antt =====
-- internal/budget/checker.go: CheckBudget. Amounts are whole numbers of 10^-7 dollars; what the source's
-- float64 arithmetic makes of them in a test or a percentage, which may differ from the exact answer at
-- the boundary, is an argument. The alerts that the source logs are the thresholds of the result.
use agentic_demo.Prelude.{
  ℕ, zero, suc, Bool, true, false, Option, none, some, Text, ℤ, pos, negsuc, sub_ℕ, Result, ok, err,
  if◌then◌else◌,
}
use agentic_demo.Budget.Pricing.{compute_cost}

-- num / den percent.
pub record Percent : Type 0 where
  pub num : ℕ
  pub den : ℕ

pub record BudgetStatus : Type 0 where
  pub tenant_id : Text
  pub monthly_budget : ℤ
  pub month_to_date_cost : ℕ
  pub remaining_budget : ℤ
  pub percent_used : Percent
  pub is_exceeded : Bool

pub data Threshold : Type 0 where
  below reached_80 reached_95 : Threshold

pub record BudgetCheckResult : Type 0 where
  pub allowed : Bool
  pub budget_status : Option BudgetStatus
  pub estimated_call_cost : ℕ
  pub threshold_reached : Threshold

pub data CheckError : Type 0 where
  budget_unavailable usage_unavailable : CheckError

-- The float64 arithmetic: `monthToDate+estimatedCallCost > budget`, `pct >= p` for a percentage `p` of
-- pct = monthToDate / budget * 100, and `math.Round(pct*100) / 100`.
pub record Float64 : Type 0 where
  pub exceeds : ℕ → ℕ → ℕ → Bool
  pub reaches : ℕ → ℕ → ℕ → Bool
  pub rounded_percent : ℕ → ℕ → Percent

-- The alert thresholds.
unfoldable pub threshold : Float64 → ℕ → ℕ → Threshold
threshold f spent budget =
    if f.reaches 95 spent budget
    then reached_95
    else if f.reaches 80 spent budget
    then reached_80
    else below

unfoldable pub no_enforcement : BudgetCheckResult
no_enforcement = record {
  allowed = true;
  budget_status = none;
  estimated_call_cost = 0;
  threshold_reached = below;
}

unfoldable pub status_of : Float64 → Text → ℕ → ℕ → Bool → BudgetStatus
status_of f tenant budget spent exceeded = record {
  tenant_id = tenant;
  monthly_budget = pos budget;
  month_to_date_cost = spent;
  remaining_budget = sub_ℕ budget spent;
  percent_used = f.rounded_percent spent budget;
  is_exceeded = exceeded;
}

-- The part of `CheckBudget` behind the usage: a positive budget, the cost of the month so far, and
-- the estimated cost of the call.
unfoldable pub decide_call : Float64 → Text → ℕ → ℕ → ℕ → BudgetCheckResult
unfolding status_of threshold
decide_call f tenant budget spent call =
    if f.exceeds spent call budget
    then record {
      allowed = false;
      budget_status = some (status_of f tenant budget spent true);
      estimated_call_cost = call;
      threshold_reached = below;
    }
    else record {
      allowed = true;
      budget_status = some (status_of f tenant budget spent false);
      estimated_call_cost = call;
      threshold_reached = threshold f spent budget;
    }

abbrev with_usage : Float64 → Text → ℕ → Option ℕ → ℕ → Result CheckError BudgetCheckResult
with_usage f tenant budget none call = err usage_unavailable
with_usage f tenant budget (some spent) call = ok (decide_call f tenant budget spent call)

-- `CheckBudget`. `stored` is the budget that the repository returns and `usage` the cost of the
-- month that the reader returns; `none` is an error of either.
unfoldable pub check_budget :
    Float64 → Option ℤ → Option ℕ → Text → Text → ℕ → ℕ → Result CheckError BudgetCheckResult
unfolding decide_call no_enforcement
check_budget f none usage tenant model input output = err budget_unavailable
check_budget f (some (negsuc n)) usage tenant model input output = ok no_enforcement
check_budget f (some (pos zero)) usage tenant model input output = ok no_enforcement
check_budget f (some (pos (suc b))) usage tenant model input output =
    with_usage f tenant (suc b) usage (compute_cost model input output)
