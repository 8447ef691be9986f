-- ===== src/Usage/Reader.antt =====
-- internal/usage/reader.go: the usage of the current month, read from the counters in Redis.
pub mod MonthToDate
use agentic_demo.Prelude.{
  ℕ, ◌+◌, ◌*◌, Bool, true, false, ◌||◌, Option, none, some, List, [], ◌∷◌, ◌++◌, Text, ltb,
  if◌then◌else◌,
}
use agentic_demo.Usage.Key.{parse_usage_key}
use agentic_demo.Usage.Dates.{parse_date}
use agentic_demo.Usage.Emitter.{Fields, Hash, Redis, live, fields_of, no_fields}

pub record ModelUsage : Type 0 where
  pub model : Text
  pub usage : Fields

pub record CurrentUsage : Type 0 where
  pub totals : Fields
  pub by_model : List ModelUsage

abbrev pub add_fields : Fields → Fields → Fields
add_fields a b = record {
  input_tokens = a.input_tokens + b.input_tokens;
  output_tokens = a.output_tokens + b.output_tokens;
  tool_calls = a.tool_calls + b.tool_calls;
  embedding_tokens = a.embedding_tokens + b.embedding_tokens;
  cost = a.cost + b.cost;
  reports_generated = a.reports_generated + b.reports_generated;
}

-- Whether a date lies outside the month, given as year * 100 + month: before its first day, or
-- after its end.
unfoldable pub outside_month : ℕ → ℕ → Bool
outside_month month date = ltb date (month * 100 + 1) || ltb (month * 100 + 31) date

-- The model of a key of the current month; `none` where the loop passes on to the next key.
unfoldable pub key_model : ℕ → Text → Option Text
unfolding outside_month
key_model month key = elim (parse_usage_key key) [
  | none ↦ none
  | some (tenant, date, model) ↦ elim (parse_date date) [
    | none ↦ none
    | some d ↦ if outside_month month d then none else some model
  ]
]

-- One round of the inner loop.
unfoldable pub add_key : ℕ → ℕ → Redis → CurrentUsage → Text → CurrentUsage
unfolding key_model
add_key now month r result key = elim (key_model month key) [
  | none ↦ result
  | some model ↦
      let fields = fields_of (live now (r.hashes key)) in
      record {
        totals = add_fields result.totals fields;
        by_model = result.by_model ++ (record { model = model; usage = fields } ∷ []);
      }
]

unfoldable pub add_keys : ℕ → ℕ → Redis → CurrentUsage → List Text → CurrentUsage
unfolding add_key
add_keys now month r result [] = result
add_keys now month r result (key ∷ keys) =
    add_keys now month r (add_key now month r result key) keys

abbrev pub no_usage : CurrentUsage
no_usage = record { totals = no_fields; by_model = [] }

-- `GetCurrentUsage`. `scanned` holds the keys that the scan for the tenant's prefix returned.
unfoldable pub get_current_usage : ℕ → ℕ → Redis → List Text → CurrentUsage
unfolding add_keys
get_current_usage now month r scanned = add_keys now month r no_usage scanned
