-- ===== src/Usage/Reader/MonthToDate/Forgotten.antt =====
-- The expiry of the counters of internal/usage/redis_emitter.go, as internal/usage/reader.go sees it.
use agentic_demo.Prelude.{
  ℕ, ◌+◌, ◌≤◌, ◌≡◌, refl, ◌∙◌, inl, inr, Option, none, some, List, [], ◌∷◌, Text, All, text_eq, ltb,
  arith, Bool-cases,
}
use agentic_demo.Usage.Emitter.{
  UsageEvent, Fields, Hash, Redis, live, key_ttl, increments, emit_usage, touched,
}
use agentic_demo.Usage.Reader.{key_model, get_current_usage}
use agentic_demo.Usage.Reader.MonthToDate.{event_key, cost_if, key_cost, keys_cost, total_cost}

-- No hash is there any more.
abbrev pub Expired : ℕ → Redis → Type 0
Expired now r = (k : Text) → live now (r.hashes k) ≡ none

cost_if-zero : (o : Option Text) → cost_if o 0 ≡ 0
unfolding cost_if
cost_if-zero none = refl
cost_if-zero (some m) = refl

keys_cost-Expired :
    (now month : ℕ) (r : Redis) (ks : List Text) → Expired now r → keys_cost now month r ks ≡ 0
unfolding keys_cost key_cost cost_if
keys_cost-Expired now month r [] h = refl
keys_cost-Expired now month r (k ∷ ks) h =
    rw (h k, keys_cost-Expired now month r ks h, cost_if-zero (key_model month k))

-- Events with the second and the date at which each is emitted.
abbrev pub emit_all : Redis → List (ℕ × Text × UsageEvent) → Redis
emit_all r [] = r
emit_all r ((now, date, e) ∷ events) = emit_all (emit_usage now date r e) events

abbrev EndsBy : ℕ → Option Hash → Type 0
EndsBy bound none = Unit
EndsBy bound (some h) = h.expires ≤ bound

Ends : ℕ → Redis → Type 0
Ends bound r = (k : Text) → EndsBy bound (r.hashes k)

EndsBy-live : (now bound : ℕ) (o : Option Hash) → EndsBy bound o → EndsBy bound (live now o)
EndsBy-live now bound none h = tt
EndsBy-live now bound (some x) h = elim (Bool-cases (ltb now x.expires)) [
  | inl e ↦ rw e h
  | inr e ↦ rw e tt
]

EndsBy-touched :
    (now bound : ℕ) (add : Option (Fields → Fields)) (o : Option Hash)
    → now + key_ttl ≤ bound
    → EndsBy bound (touched now add o)
EndsBy-touched now bound (some f) o h = h
EndsBy-touched now bound none none h = tt
EndsBy-touched now bound none (some x) h = h

Ends-emit_usage :
    (now bound : ℕ) (date : Text) (r : Redis) (e : UsageEvent)
    → now + key_ttl ≤ bound
    → Ends bound r
    → Ends bound (emit_usage now date r e)
unfolding Ends emit_usage
Ends-emit_usage now bound date r e h v k = elim (Bool-cases (text_eq k (event_key date e))) [
  | inl p ↦ rw p (EndsBy-touched now bound (increments e) _ h)
  | inr p ↦ rw p (v k)
]

Ends-emit_all :
    (last : ℕ) (r : Redis) (events : List (ℕ × Text × UsageEvent))
    → All (λ (at, date, e). at ≤ last) events
    → Ends (last + key_ttl) r
    → Ends (last + key_ttl) (emit_all r events)
Ends-emit_all last r [] h v = v
Ends-emit_all last r ((now, date, e) ∷ events) h v =
    Ends-emit_all last (emit_usage now date r e) events h.1
      (Ends-emit_usage now (last + key_ttl) date r e (omega (arith, h.0)) v)

live-EndsBy : (now bound : ℕ) (o : Option Hash) → EndsBy bound o → bound ≤ now → live now o ≡ none
live-EndsBy now bound none h k = refl
live-EndsBy now bound (some x) h k = ground arith

abbrev pub no_redis : Redis
no_redis = record { hashes = λ k. none; queue = [] }

-- 48 hours after the last event all usage is forgotten: whatever events were emitted, from an empty
-- store on, the month's total cost is then read as 0.
pub cost-forgotten :
    (last now month : ℕ) (events : List (ℕ × Text × UsageEvent)) (scanned : List Text)
    → All (λ (at, date, e). at ≤ last) events
    → last + key_ttl ≤ now
    → (get_current_usage now month (emit_all no_redis events) scanned).totals.cost ≡ 0
unfolding Ends
cost-forgotten last now month events scanned h k =
    total_cost now month (emit_all no_redis events) scanned
    ∙ keys_cost-Expired now month (emit_all no_redis events) scanned (λ key.
      live-EndsBy now (last + key_ttl) _ (Ends-emit_all last no_redis events h (λ _. tt) key) k)
