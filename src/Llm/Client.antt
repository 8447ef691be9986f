-- ===== src/Llm/Client.antt =====
-- internal/llm/client.go: Complete with its budget check, its retries and its fallback. The providers
-- and the context are arguments: what a provider answers to its n-th attempt (from 0), and whether
-- the context has ended after the attempt or during the wait that follows it.
pub mod Retries
use agentic_demo.Prelude.{
  ℕ, zero, suc, ◌+◌, ◌/◌, ◌^◌, Bool, true, false, ◌&&◌, not, Option, none, some, List, [], ◌∷◌,
  ◌++◌, Text, is_empty, utf8_len, Result, ok, err, ◌==◌, if◌then◌else◌,
}

pub data LlmError : Type 0 where
  provider_failed : ℕ → LlmError
  all_failed : LlmError → LlmError → LlmError
  context_ended budget_exceeded budget_check_failed : LlmError

abbrev pub Chat : Type 0 → Type 0
Chat A = ℕ → Result ℕ A

pub record Context : Type 0 where
  pub ended_after : ℕ → Bool
  pub ended_waiting : ℕ → Bool

-- What a run of `callWithRetry` did: its result, its calls of the provider, and the seconds of each
-- wait.
pub record Run (A : Type 0) : Type 0 where
  pub result : Result LlmError A
  pub calls : ℕ
  pub waits : List ℕ

abbrev after_wait : {A : Type 0} → ℕ → Run A → Run A
after_wait seconds r = record r { calls = suc r.calls; waits = seconds ∷ r.waits }

module _ {A : Type 0} where
  -- The loop of `callWithRetry` at an attempt with `left` retries left.
  unfoldable pub retry_from : Chat A → Context → ℕ → ℕ → Run A
  retry_from chat ctx zero attempt = elim (chat attempt) [
    | ok a ↦ record { result = ok a; calls = 1; waits = [] }
    | err e ↦ elim (ctx.ended_after attempt) [
      | true ↦ record { result = err context_ended; calls = 1; waits = [] }
      | false ↦ record { result = err (provider_failed e); calls = 1; waits = [] }
    ]
  ]
  retry_from chat ctx (suc left) attempt = elim (chat attempt) [
    | ok a ↦ record { result = ok a; calls = 1; waits = [] }
    | err e ↦ elim (ctx.ended_after attempt) [
      | true ↦ record { result = err context_ended; calls = 1; waits = [] }
      | false ↦ elim (ctx.ended_waiting attempt) [
        | true ↦ record { result = err context_ended; calls = 1; waits = 2 ^ attempt ∷ [] }
        | false ↦ after_wait (2 ^ attempt) (retry_from chat ctx left (suc attempt))
      ]
    ]
  ]

  unfoldable pub call_with_retry : ℕ → Chat A → Context → Run A
  unfolding retry_from
  call_with_retry max_retries chat ctx = retry_from chat ctx max_retries 0

-- `estimateInputTokens` over the contents of the messages.
unfoldable pub total_chars : List Text → ℕ
total_chars [] = 0
total_chars (m ∷ ms) = utf8_len m + total_chars ms

unfoldable pub estimate_input_tokens : List Text → ℕ
unfolding total_chars
estimate_input_tokens msgs = total_chars msgs / 4

pub record Options : Type 0 where
  pub tenant_id : Text
  pub model : Text
  pub max_tokens : ℕ

-- `CheckBudget`: whether the call is allowed, or an error.
abbrev pub BudgetChecker : Type 0
BudgetChecker = Text → Text → ℕ → ℕ → Option Bool

pub record Client (A : Type 0) : Type 0 where
  pub primary : Chat A
  pub fallback : Option (Chat A)
  pub max_retries : ℕ
  pub budget_checker : Option BudgetChecker

-- The guard in front of the call: an error stops it.
abbrev pub verdict : Option Bool → Option LlmError
verdict none = some budget_check_failed
verdict (some false) = some budget_exceeded
verdict (some true) = none

abbrev check_with : Option BudgetChecker → List Text → Options → Option LlmError
check_with none msgs opts = none
check_with (some check) msgs opts =
    if is_empty opts.tenant_id
    then none
    else verdict (
        check opts.tenant_id opts.model (estimate_input_tokens msgs)
          (if opts.max_tokens == 0 then 1024 else opts.max_tokens))

unfoldable pub budget_stop : {A : Type 0} → Client A → List Text → Options → Option LlmError
unfolding estimate_input_tokens
budget_stop c msgs opts = check_with c.budget_checker msgs opts

-- What a run of `Complete` did.
pub record Completed (A : Type 0) : Type 0 where
  pub outcome : Result LlmError A
  pub primary_calls : ℕ
  pub fallback_calls : ℕ

module _ {A : Type 0} where
  abbrev pub after_fallback : ℕ → LlmError → Run A → Completed A
  after_fallback calls e r = record {
    outcome = elim r.result [ ok a ↦ ok a | err f ↦ err (all_failed e f) ];
    primary_calls = calls;
    fallback_calls = r.calls;
  }

  abbrev pub try_fallback : ℕ → Context → Option (Chat A) → ℕ → LlmError → Completed A
  try_fallback max_retries ctx none calls e = record {
    outcome = err e;
    primary_calls = calls;
    fallback_calls = 0;
  }
  try_fallback max_retries ctx (some chat) calls e =
      after_fallback calls e (call_with_retry max_retries chat ctx)

  abbrev pub after_primary : Client A → Context → Run A → Completed A
  after_primary c ctx r = elim r.result [
    | ok a ↦ record { outcome = ok a; primary_calls = r.calls; fallback_calls = 0 }
    | err e ↦ try_fallback c.max_retries ctx c.fallback r.calls e
  ]

  -- `Complete`. The second context is the one that the fallback's attempts see.
  unfoldable pub complete : Client A → Context → Context → List Text → Options → Completed A
  unfolding call_with_retry budget_stop
  complete c ctx later msgs opts = elim (budget_stop c msgs opts) [
    | some e ↦ record { outcome = err e; primary_calls = 0; fallback_calls = 0 }
    | none ↦ after_primary c later (call_with_retry c.max_retries c.primary ctx)
  ]
