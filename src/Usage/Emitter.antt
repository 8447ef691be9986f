-- ===== src/Usage/Emitter.antt =====
-- internal/usage/emitter.go and redis_emitter.go: usage events, the counters in Redis, EmitUsage.
use agentic_demo.Prelude.{
  ℕ, ◌+◌, ◌-◌, Bool, Option, none, some, List, [], ◌∷◌, ◌++◌, Text, lit, text_eq, is_empty, length,
  drop, ltb, if◌then◌else◌,
}
use agentic_demo.Usage.Key.{redis_key}
use agentic_demo.Usage.Pricing.{compute_cost}

pub data EventType : Type 0 where
  llm tool embedding other : EventType

pub record LlmUsage : Type 0 where
  pub model : Text
  pub input_tokens : ℕ
  pub output_tokens : ℕ

pub record ToolUsage : Type 0 where
  pub tool_name : Text
  pub model : Text
  pub success : Bool

pub record EmbeddingUsage : Type 0 where
  pub model : Text
  pub chunks_processed : ℕ

pub record UsageEvent : Type 0 where
  pub kind : EventType
  pub tenant_id : Text
  pub llm_usage : Option LlmUsage
  pub tool_usage : Option ToolUsage
  pub embedding_usage : Option EmbeddingUsage

-- The hash of a counter key. A field that the hash lacks reads as 0. The counters do not wrap.
pub record Fields : Type 0 where
  pub input_tokens : ℕ
  pub output_tokens : ℕ
  pub tool_calls : ℕ
  pub embedding_tokens : ℕ
  pub cost : ℕ
  pub reports_generated : ℕ

abbrev pub no_fields : Fields
no_fields = record {
  input_tokens = 0;
  output_tokens = 0;
  tool_calls = 0;
  embedding_tokens = 0;
  cost = 0;
  reports_generated = 0;
}

-- A hash is there until the second `expires`.
pub record Hash : Type 0 where
  pub fields : Fields
  pub expires : ℕ

-- An entry of the flush queue: an event, or `none` for a text that is not the JSON of one.
abbrev pub Entry : Type 0
Entry = Option UsageEvent

-- Redis as this package uses it. `queue` is the flush queue, oldest entry first: `LPUSH` adds at its
-- end and `BRPOP` takes from its front.
pub record Redis : Type 0 where
  pub hashes : Text → Option Hash
  pub queue : List Entry

abbrev pub max_queue_len : ℕ
max_queue_len = 10000

-- 48 hours, in seconds.
abbrev pub key_ttl : ℕ
key_ttl = 172800

or_default : Text → Text → Text
unfolding is_empty
or_default model default = if is_empty model then default else model

abbrev llm_model : Option LlmUsage → Text
unfolding or_default
llm_model none = lit "_unknown_"
llm_model (some u) = or_default u.model (lit "_unknown_")

abbrev tool_model : Option ToolUsage → Text
unfolding or_default
tool_model none = lit "_tool_"
tool_model (some u) = or_default u.model (lit "_tool_")

abbrev embedding_model : Option EmbeddingUsage → Text
unfolding or_default
embedding_model none = lit "_embedding_"
embedding_model (some u) = or_default u.model (lit "_embedding_")

-- `eventModel`.
unfoldable pub event_model : UsageEvent → Text
unfolding or_default
event_model e = elim e.kind [
  | llm ↦ llm_model e.llm_usage
  | tool ↦ tool_model e.tool_usage
  | embedding ↦ embedding_model e.embedding_usage
  | other ↦ lit "_unknown_"
]

abbrev add_llm : Text → LlmUsage → Fields → Fields
add_llm model u f = record f {
  input_tokens = f.input_tokens + u.input_tokens;
  output_tokens = f.output_tokens + u.output_tokens;
  reports_generated = f.reports_generated + 1;
  cost = f.cost + compute_cost model u.input_tokens u.output_tokens;
}

abbrev add_embedding : Text → EmbeddingUsage → Fields → Fields
add_embedding model u f = record f {
  embedding_tokens = f.embedding_tokens + u.chunks_processed;
  cost = f.cost + compute_cost model u.chunks_processed 0;
}

-- The increments of an event; `none` if it makes none.
unfoldable pub increments : UsageEvent → Option (Fields → Fields)
unfolding event_model
increments e = elim e.kind [
  | llm ↦ elim e.llm_usage [ none ↦ none | some u ↦ some (add_llm (event_model e) u) ]
  | tool ↦ some (λ f. record f { tool_calls = f.tool_calls + 1 })
  | embedding ↦ elim e.embedding_usage [
    | none ↦ none
    | some u ↦ some (add_embedding (event_model e) u)
  ]
  | other ↦ none
]

-- The hash of a key at a time; one that has expired is gone.
abbrev pub live : ℕ → Option Hash → Option Hash
live now none = none
live now (some h) = if ltb now h.expires then some h else none

abbrev pub fields_of : Option Hash → Fields
fields_of none = no_fields
fields_of (some h) = h.fields

-- The increments, then `EXPIRE`, which does nothing to a key that is not there.
abbrev pub touched : ℕ → Option (Fields → Fields) → Option Hash → Option Hash
touched now (some add) old = some (record { fields = add (fields_of old); expires = now + key_ttl })
touched now none none = none
touched now none (some h) = some (record { fields = h.fields; expires = now + key_ttl })

-- `LPUSH` and `LTRIM 0 9999`: the newest entries are kept.
unfoldable pub pushed : List Entry → Entry → List Entry
pushed q e = drop (length (q ++ (e ∷ [])) - max_queue_len) (q ++ (e ∷ []))

-- `EmitUsage` at second `now` of the day `date`, with the whole pipeline executed.
unfoldable pub emit_usage : ℕ → Text → Redis → UsageEvent → Redis
unfolding increments pushed
emit_usage now date r e =
    let key = redis_key e.tenant_id date (event_model e) in
    record {
      hashes = λ k.
          if text_eq k key
          then touched now (increments e) (live now (r.hashes key))
          else r.hashes k;
      queue = pushed r.queue (some e);
    }
