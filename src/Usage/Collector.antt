-- ===== src/Usage/Collector.antt =====
-- internal/usage/collector.go: the flush of the event queue into usage_events, and the roll-up of
-- the counters into usage_daily.
pub mod Flush
pub mod Rollup
use agentic_demo.Prelude.{
  ℕ, zero, suc, ◌+◌, ◌-◌, Bool, true, false, ◌&&◌, ◌||◌, Option, none, some, List, [], ◌∷◌, ◌++◌,
  Text, text_eq, ltb, if◌then◌else◌,
}
use agentic_demo.Usage.Key.{parse_usage_key}
use agentic_demo.Usage.Dates.{parse_date}
use agentic_demo.Usage.Emitter.{UsageEvent, Entry, Fields, Hash, Redis, live, no_fields}

abbrev pub flush_batch_size : ℕ
flush_batch_size = 100

-- What the database, the queue and the context answer during a flush, given the events inserted so far.
pub record FlushEnv : Type 0 where
  pub cancelled : List UsageEvent → Bool
  pub insert_ok : List UsageEvent → UsageEvent → Bool
  pub requeue_ok : List UsageEvent → UsageEvent → Bool

-- The loop of `flush`: `left` is what the batch size leaves, `pending` the queue, oldest entry first,
-- `stored` the table usage_events, oldest first. An entry that is not an event is dropped and not
-- counted; an event that is not inserted goes back, by `LPUSH`, behind the newest entry, if that
-- succeeds, which the source does not look at.
unfoldable pub flush_from :
    FlushEnv → ℕ → List Entry → List UsageEvent → List Entry × List UsageEvent
flush_from env zero pending stored = (pending, stored)
flush_from env (suc left) [] stored = ([], stored)
flush_from env (suc left) (none ∷ pending) stored = elim (env.cancelled stored) [
  | true ↦ (none ∷ pending, stored)
  | false ↦ flush_from env (suc left) pending stored
]
flush_from env (suc left) (some e ∷ pending) stored = elim (env.cancelled stored) [
  | true ↦ (some e ∷ pending, stored)
  | false ↦ elim (env.insert_ok stored e) [
    | true ↦ flush_from env left pending (stored ++ (e ∷ []))
    | false ↦ (if env.requeue_ok stored e then pending ++ (some e ∷ []) else pending, stored)
  ]
]

-- `flush`.
unfoldable pub flush : FlushEnv → List Entry → List UsageEvent → List Entry × List UsageEvent
unfolding flush_from
flush env pending stored = flush_from env flush_batch_size pending stored

-- The table usage_daily, whose rows are unique by tenant, date and model; no row reads as `none`.
-- The row is named by the text of its date, which `parse_date` has accepted.
abbrev pub Daily : Type 0
Daily = Text → Text → Text → Option Fields

abbrev pub max_int32 : ℕ
max_int32 = 2147483647

-- `toInt32`; the counters are never negative.
unfoldable pub to_int32 : ℕ → ℕ
to_int32 n = if ltb max_int32 n then max_int32 else n

abbrev pub row_or_zero : Option Fields → Fields
row_or_zero none = no_fields
row_or_zero (some f) = f

-- `INSERT … ON CONFLICT … DO UPDATE` of UpsertUsageDaily: the new row, or the sum with the old one.
unfoldable pub summed : Option Fields → Fields → Fields
summed old new = record {
  input_tokens = (row_or_zero old).input_tokens + new.input_tokens;
  output_tokens = (row_or_zero old).output_tokens + new.output_tokens;
  tool_calls = (row_or_zero old).tool_calls + new.tool_calls;
  embedding_tokens = (row_or_zero old).embedding_tokens + new.embedding_tokens;
  cost = (row_or_zero old).cost + new.cost;
  reports_generated = (row_or_zero old).reports_generated + new.reports_generated;
}

unfoldable pub upsert_daily : Daily → Text → Text → Text → Fields → Daily
unfolding summed
upsert_daily daily tenant date model row t d m =
    if text_eq t tenant && (text_eq d date && text_eq m model)
    then some (summed (daily t d m) row)
    else daily t d m

-- The clamped row of a hash. `column` is what the column NUMERIC(12,6) makes of an amount.
unfoldable pub daily_row : (ℕ → ℕ) → Fields → Fields
unfolding to_int32
daily_row column f = record f {
  tool_calls = to_int32 f.tool_calls;
  cost = column f.cost;
  reports_generated = to_int32 f.reports_generated;
}

-- What a key is rolled up into: tenant, date, model and row; `none` where the loop passes on.
unfoldable pub rollup_row : (ℕ → ℕ) → ℕ → Redis → Text → Option (Text × Text × Text × Fields)
unfolding daily_row
rollup_row column now r key = elim (parse_usage_key key) [
  | none ↦ none
  | some (tenant, date, model) ↦ elim (live now (r.hashes key)) [
    | none ↦ none
    | some h ↦ elim (parse_date date) [
      | none ↦ none
      | some d ↦ some (tenant, date, model, daily_row column h.fields)
    ]
  ]
]

-- One round of the inner loop. `upsert_ok` says whether the statement for a key succeeds.
unfoldable pub rollup_key : (ℕ → ℕ) → (Text → Bool) → ℕ → Redis → Daily → Text → Daily
unfolding rollup_row upsert_daily
rollup_key column upsert_ok now r daily key = elim (rollup_row column now r key) [
  | none ↦ daily
  | some (tenant, date, model, row) ↦
      if upsert_ok key then upsert_daily daily tenant date model row else daily
]

-- `rollup` over the keys that the scan returned.
unfoldable pub rollup : (ℕ → ℕ) → (Text → Bool) → ℕ → Redis → Daily → List Text → Daily
unfolding rollup_key
rollup column upsert_ok now r daily [] = daily
rollup column upsert_ok now r daily (key ∷ keys) =
    rollup column upsert_ok now r (rollup_key column upsert_ok now r daily key) keys
