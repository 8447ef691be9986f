-- ===== src/Usage/Reader/MonthToDate.antt =====
-- What GetCurrentUsage of internal/usage/reader.go makes of the events that EmitUsage of
-- internal/usage/redis_emitter.go has counted.
pub mod Forgotten
use agentic_demo.Prelude.{
  ℕ, ◌+◌, ◌≤◌, ◌≡◌, refl, ◌∙◌, inl, inr, false, Option, none, some, List, [], ◌∷◌, ◌++◌, Text, All,
  text_eq, text_eq_refl, is_empty, ltb, arith, Bool-cases, Option-cases,
}
use agentic_demo.Usage.Key.{redis_key}
use agentic_demo.Usage.Key.RoundTrip.{NoColon, parse_usage_key_iff}
use agentic_demo.Usage.Pricing.{compute_cost}
use agentic_demo.Usage.Dates.{parse_date}
use agentic_demo.Usage.Emitter.{
  llm, tool, embedding, other, UsageEvent, Fields, Hash, Redis, no_fields, live, fields_of, key_ttl,
  event_model, increments, emit_usage, touched,
}
use agentic_demo.Usage.Reader.{
  ModelUsage, CurrentUsage, add_fields, outside_month, key_model, add_key, add_keys, no_usage,
  get_current_usage,
}

abbrev pub sum_usage : List ModelUsage → Fields
sum_usage [] = no_fields
sum_usage (u ∷ us) = add_fields u.usage (sum_usage us)

sum_usage-snoc :
    (us : List ModelUsage) (u : ModelUsage)
    → sum_usage (us ++ (u ∷ [])) ≡ add_fields (sum_usage us) u.usage
sum_usage-snoc [] u = ground arith
sum_usage-snoc (v ∷ us) u = ground (arith, sum_usage-snoc us u)

sum_usage-add_key :
    (now month : ℕ) (r : Redis) (c : CurrentUsage) (key : Text)
    → c.totals ≡ sum_usage c.by_model
    → (add_key now month r c key).totals ≡ sum_usage (add_key now month r c key).by_model
unfolding add_key
sum_usage-add_key now month r c key h = elim (Option-cases (key_model month key)) [
  | inl e ↦ rw (e, add_key) h
  | inr (m, e) ↦ rw (e, add_key) (rw (sum_usage-snoc, ← h) refl)
]

sum_usage-add_keys :
    (now month : ℕ) (r : Redis) (c : CurrentUsage) (keys : List Text)
    → c.totals ≡ sum_usage c.by_model
    → (add_keys now month r c keys).totals ≡ sum_usage (add_keys now month r c keys).by_model
unfolding add_keys
sum_usage-add_keys now month r c [] h = h
sum_usage-add_keys now month r c (key ∷ keys) h =
    sum_usage-add_keys now month r (add_key now month r c key) keys
      (sum_usage-add_key now month r c key h)

-- The totals of the month are the sums over its lines by model, whatever the scan returned.
pub totals-eq-sum_usage :
    (now month : ℕ) (r : Redis) (scanned : List Text)
    → (get_current_usage now month r scanned).totals
      ≡ sum_usage (get_current_usage now month r scanned).by_model
unfolding get_current_usage
totals-eq-sum_usage now month r scanned = sum_usage-add_keys now month r no_usage scanned refl

-- The cost that a key adds to the total.
cost_if : Option Text → ℕ → ℕ
cost_if none n = 0
cost_if (some m) n = n

key_cost : ℕ → ℕ → Redis → Text → ℕ
key_cost now month r key = cost_if (key_model month key) (fields_of (live now (r.hashes key))).cost

keys_cost : ℕ → ℕ → Redis → List Text → ℕ
unfolding key_cost
keys_cost now month r [] = 0
keys_cost now month r (key ∷ keys) = key_cost now month r key + keys_cost now month r keys

add_key-cost :
    (now month : ℕ) (r : Redis) (c : CurrentUsage) (key : Text)
    → (add_key now month r c key).totals.cost ≡ c.totals.cost + key_cost now month r key
unfolding add_key key_cost cost_if
add_key-cost now month r c key = elim (Option-cases (key_model month key)) [
  | inl e ↦ rw (e, add_key, cost_if) (omega arith)
  | inr (m, e) ↦ rw (e, add_key, cost_if) refl
]

add_keys-cost :
    (now month : ℕ) (r : Redis) (c : CurrentUsage) (keys : List Text)
    → (add_keys now month r c keys).totals.cost ≡ c.totals.cost + keys_cost now month r keys
unfolding add_keys keys_cost
add_keys-cost now month r c [] = omega arith
add_keys-cost now month r c (key ∷ keys) = omega (
  arith,
  add_keys-cost now month r (add_key now month r c key) keys,
  add_key-cost now month r c key,
)

total_cost :
    (now month : ℕ) (r : Redis) (scanned : List Text)
    → (get_current_usage now month r scanned).totals.cost ≡ keys_cost now month r scanned
unfolding get_current_usage
total_cost now month r scanned = omega (arith, add_keys-cost now month r no_usage scanned)

keys_cost-append :
    (now month : ℕ) (r : Redis) (ks ls : List Text)
    → keys_cost now month r (ks ++ ls) ≡ keys_cost now month r ks + keys_cost now month r ls
unfolding keys_cost
keys_cost-append now month r [] ls = omega arith
keys_cost-append now month r (k ∷ ks) ls = omega (arith, keys_cost-append now month r ks ls)

-- None of the keys is the given one.
abbrev pub Without : Text → List Text → Type 0
Without key = All (λ k. text_eq k key ≡ false)

-- The key that an event of a day counts under.
abbrev pub event_key : Text → UsageEvent → Text
event_key date e = redis_key e.tenant_id date (event_model e)

hashes-emit_usage :
    (now : ℕ) (date : Text) (r : Redis) (e : UsageEvent) (k : Text)
    → text_eq k (event_key date e) ≡ false
    → (emit_usage now date r e).hashes k ≡ r.hashes k
unfolding emit_usage
hashes-emit_usage now date r e k h = rw h

keys_cost-emit_usage :
    (now month : ℕ) (date : Text) (r : Redis) (e : UsageEvent) (ks : List Text)
    → Without (event_key date e) ks
    → keys_cost now month (emit_usage now date r e) ks ≡ keys_cost now month r ks
unfolding keys_cost key_cost
keys_cost-emit_usage now month date r e [] h = refl
keys_cost-emit_usage now month date r e (k ∷ ks) h =
    rw (hashes-emit_usage now date r e k h.0, keys_cost-emit_usage now month date r e ks h.1)

-- What an event costs: only LLM and embedding events with their details do.
unfoldable pub event_cost : UsageEvent → ℕ
event_cost e = elim e.kind [
  | llm ↦ elim e.llm_usage [
    | none ↦ 0
    | some u ↦ compute_cost (event_model e) u.input_tokens u.output_tokens
  ]
  | tool ↦ 0
  | embedding ↦ elim e.embedding_usage [
    | none ↦ 0
    | some u ↦ compute_cost (event_model e) u.chunks_processed 0
  ]
  | other ↦ 0
]

own_cost-emit_usage :
    (now : ℕ) (date : Text) (r : Redis) (e : UsageEvent)
    → (fields_of (live now ((emit_usage now date r e).hashes (event_key date e)))).cost
      ≡ (fields_of (live now (r.hashes (event_key date e)))).cost + event_cost e
unfolding emit_usage event_cost increments
own_cost-emit_usage now date r e =
    rw (text_eq_refl (redis_key e.tenant_id date (event_model e))) (ground arith)

is_empty-event_model : (e : UsageEvent) → is_empty (event_model e) ≡ false
unfolding event_model is_empty
is_empty-event_model e = ground arith

key_model-event_key :
    (month d : ℕ) (date : Text) (e : UsageEvent)
    → NoColon e.tenant_id
    → NoColon date
    → parse_date date ≡ some d
    → outside_month month d ≡ false
    → key_model month (event_key date e) ≡ some (event_model e)
unfolding key_model
key_model-event_key month d date e ht hd p q =
    rw
      (
        (parse_usage_key_iff (event_key date e) e.tenant_id date (event_model e)).1
            (refl, ht, hd, is_empty-event_model e),
        key_model,
      )
      (rw (p, q))

counted_key :
    (now month : ℕ) (r : Redis) (key : Text) {model : Text}
    → key_model month key ≡ some model
    → key_cost now month r key ≡ (fields_of (live now (r.hashes key))).cost
unfolding key_cost cost_if
counted_key now month r key h = rw h

-- An event of the current month raises the cost of the month by exactly what the event costs, if
-- the scan returns its key once, and neither the tenant nor the date holds a colon.
pub cost-emit_usage :
    (now month d : ℕ) (date : Text) (r : Redis) (e : UsageEvent) (before after : List Text)
    → NoColon e.tenant_id
    → NoColon date
    → parse_date date ≡ some d
    → outside_month month d ≡ false
    → Without (event_key date e) before
    → Without (event_key date e) after
    → let scanned = before ++ (event_key date e ∷ after) in
      (get_current_usage now month (emit_usage now date r e) scanned).totals.cost
      ≡ (get_current_usage now month r scanned).totals.cost + event_cost e
unfolding keys_cost
cost-emit_usage now month d date r e before after ht hd p q hb ha =
    let key = event_key date e in
    let r' = emit_usage now date r e in
    let in_month = key_model-event_key month d date e ht hd p q in
    omega (
      arith,
      total_cost now month r (before ++ (key ∷ after)),
      total_cost now month r' (before ++ (key ∷ after)),
      keys_cost-append now month r before (key ∷ after),
      keys_cost-append now month r' before (key ∷ after),
      keys_cost-emit_usage now month date r e before hb,
      keys_cost-emit_usage now month date r e after ha,
      counted_key now month r key in_month,
      counted_key now month r' key in_month,
      own_cost-emit_usage now date r e,
    )
