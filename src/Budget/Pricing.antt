-- ===== src/Budget/Pricing.antt =====
-- The copy of the price table in internal/budget/checker.go, in the units of Usage.Pricing.
use agentic_demo.Prelude.{
  ℕ, ◌+◌, ◌*◌, ◌≡◌, refl, Option, none, some, Text, lit, text_eq, if◌then◌else◌,
}
use agentic_demo.Usage.Pricing.{Price, price}
use agentic_demo.Usage.Pricing

unfoldable pub model_pricing : Text → Option Price
model_pricing model =
    if text_eq model (lit "qwen-max")
    then some (price 20 60)
    else if text_eq model (lit "qwen-plus")
    then some (price 10 30)
    else if text_eq model (lit "qwen-turbo")
    then some (price 5 15)
    else if text_eq model (lit "text-embedding-v4")
    then some (price 1 0)
    else if text_eq model (lit "text-embedding-v3")
    then some (price 1 0)
    else none

abbrev cost_at : Option Price → ℕ → ℕ → ℕ
cost_at none input output = 0
cost_at (some p) input output = input * p.input_per_1k + output * p.output_per_1k

-- `computeCost`.
unfoldable pub compute_cost : Text → ℕ → ℕ → ℕ
unfolding model_pricing
compute_cost model input_tokens output_tokens =
    cost_at (model_pricing model) input_tokens output_tokens

-- The budget checker prices every call as the usage module bills it: the two tables agree on every
-- model and every number of tokens.
pub compute_cost-eq-usage :
    (model : Text) (input output : ℕ)
    → compute_cost model input output ≡ Pricing.compute_cost model input output
unfolding compute_cost Pricing.compute_cost
compute_cost-eq-usage model input output = refl
