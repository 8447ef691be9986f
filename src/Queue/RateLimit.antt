-- ===== src/Queue/RateLimit.antt =====
-- internal/queue/ratelimit.go: the counter in Redis of the jobs that a tenant has active.
pub mod Workers
use agentic_demo.Prelude.{
  ℕ, ◌+◌, ◌-◌, Bool, true, false, Option, none, some, Text, lit, text_eq, ◌++◌, leb, ltb,
  if◌then◌else◌,
}

-- Redis as the map from its keys to the counters; a key may be missing.
abbrev pub Counters : Type 0
Counters = Text → Option ℕ

unfoldable pub write : Counters → Text → Option ℕ → Counters
write store key value k = if text_eq k key then value else store k

unfoldable pub job_key : Text → Text
job_key tenant = lit "tenant:" ++ (tenant ++ lit ":active_jobs")

-- A counter that is missing reads as 0, as `INCR` takes it.
abbrev pub value_or_zero : Option ℕ → ℕ
value_or_zero none = 0
value_or_zero (some n) = n

pub data Acquired : Type 0 where
  granted exceeded unavailable : Acquired

-- The test of the Lua script: a counter that is there and has reached the limit.
unfoldable pub at_limit : ℕ → Option ℕ → Bool
at_limit max_active none = false
at_limit max_active (some n) = leb max_active n

-- `Acquire`. `reachable` says whether the script could be run.
unfoldable pub acquire : ℕ → Bool → Counters → Text → Counters × Acquired
unfolding write at_limit job_key
acquire max_active reachable store tenant =
    if reachable
    then (if at_limit max_active (store (job_key tenant)) then (store, exceeded) else (
      write store (job_key tenant) (some (value_or_zero (store (job_key tenant)) + 1)),
      granted,
    ))
    else (store, unavailable)

-- The script of `Release`: a positive counter is decremented.
unfoldable pub lowered : Option ℕ → Option ℕ
lowered none = none
lowered (some n) = if ltb 0 n then some (n - 1) else some n

-- `Release`; an error of the call is dropped.
unfoldable pub release : Bool → Counters → Text → Counters
unfolding write lowered job_key
release reachable store tenant =
    if reachable then write store (job_key tenant) (lowered (store (job_key tenant))) else store
