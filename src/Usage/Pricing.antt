-- ===== src/Usage/Pricing.antt =====
-- internal/usage/pricing.go: the price of a call. The source's prices are US dollars per 1000 tokens
-- in floating point; here an amount is a whole number of units of 10^-7 dollars, in which every
-- price of the table is whole, and float rounding is left out.
use agentic_demo.Prelude.{ℕ, ◌+◌, ◌*◌, Option, none, some, Text, lit, text_eq, if◌then◌else◌}

-- A price per 1000 tokens of input and of output, in units of 10^-4 dollars per 1000 tokens.
pub record Price : Type 0 where
  pub input_per_1k : ℕ
  pub output_per_1k : ℕ

abbrev pub price : ℕ → ℕ → Price
price i o = record { input_per_1k = i; output_per_1k = o }

unfoldable pub model_pricing : Text → Option Price
model_pricing model =
    if text_eq model (lit "qwen-max")
    then some (price 20 60)
    else if text_eq model (lit "qwen-plus")
    then some (price 10 30)
    else if text_eq model (lit "qwen-turbo")
    then some (price 5 15)
    else if text_eq model (lit "text-embedding-v4")
    then some (price 1 0)
    else if text_eq model (lit "text-embedding-v3")
    then some (price 1 0)
    else none

abbrev pub cost_at : Option Price → ℕ → ℕ → ℕ
cost_at none input output = 0
cost_at (some p) input output = input * p.input_per_1k + output * p.output_per_1k

-- `computeCost`: 0 for a model that the table does not hold.
unfoldable pub compute_cost : Text → ℕ → ℕ → ℕ
unfolding model_pricing
compute_cost model input_tokens output_tokens =
    cost_at (model_pricing model) input_tokens output_tokens
