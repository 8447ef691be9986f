-- ===== src/Examples/Metering.antt =====
-- Inputs for the usage module.
use agentic_demo.Prelude.{
  false, ◌+◌, ◌≡◌, ◌↔◌, refl, false, none, some, List, [], ◌∷◌, Text, lit, is_empty, arith,
}
use agentic_demo.Usage.Key.{redis_key, parse_usage_key}
use agentic_demo.Usage.Key.RoundTrip.{NoColon, parse_usage_key_iff}
use agentic_demo.Usage.Emitter.{llm, UsageEvent, Hash, Entry, Redis, emit_usage, no_fields}
use agentic_demo.Usage.Reader.{get_current_usage}
use agentic_demo.Usage.Reader.MonthToDate.{event_cost, event_key, cost-emit_usage}
use agentic_demo.Usage.Reader.MonthToDate.Forgotten.{no_redis}
use agentic_demo.Usage.Dates.{parse_date}
use agentic_demo.Usage.Collector.{FlushEnv, flush, Daily}
use agentic_demo.Usage.Collector.Flush.{Accounted, flush-Accounted}

abbrev tenant : Text
tenant = lit "t_1"

abbrev day : Text
day = lit "2026-03-05"

abbrev model : Text
model = lit "qwen-plus"

abbrev key : Text
key = redis_key tenant day model

parse_usage_key_iff_example :
    (parse_usage_key key ≡ some (tenant, day, model))
    ↔ ((key ≡ redis_key tenant day model) × NoColon tenant × NoColon day × (is_empty model ≡ false))
parse_usage_key_iff_example = parse_usage_key_iff key tenant day model

abbrev event : UsageEvent
event = record {
  kind = llm;
  tenant_id = tenant;
  llm_usage = some (record { model = model; input_tokens = 100; output_tokens = 20 });
  tool_usage = none;
  embedding_usage = none;
}

tenant_NoColon : NoColon tenant
tenant_NoColon = ground arith

day-NoColon : NoColon day
day-NoColon = ground arith

cost-emit_usage_example :
    (get_current_usage 10 202603
      (emit_usage 10 day no_redis event)
      (event_key day event ∷ [])).totals.cost
    ≡ (get_current_usage 10 202603 no_redis (event_key day event ∷ [])).totals.cost
      + event_cost event
unfolding parse_date agentic_demo.Usage.Reader.outside_month
cost-emit_usage_example =
    cost-emit_usage 10 202603 20260305 day no_redis event [] [] tenant_NoColon day-NoColon refl refl
      tt tt

abbrev queued : List Entry
queued = some event ∷ none ∷ []

-- The database and the queue are gone, so that the oldest event is lost.
abbrev broken : FlushEnv
broken = record { cancelled = λ s. false; insert_ok = λ s e. false; requeue_ok = λ s e. false }

flush-Accounted_example : Accounted broken [] queued (flush broken queued [])
flush-Accounted_example = flush-Accounted broken queued []

abbrev counted : Hash
counted = record { fields = record no_fields { cost = 1600; input_tokens = 100 }; expires = 100 }

abbrev counters : Redis
counters = record { hashes = λ k. some counted; queue = [] }

abbrev no_rows : Daily
no_rows t d m = none
