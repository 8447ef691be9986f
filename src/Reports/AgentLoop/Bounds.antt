-- ===== src/Reports/AgentLoop/Bounds.antt =====
-- The invariant of the agent loop of internal/reports/agent_loop.go: its counts, and what it bills.
pub mod Outcome
use agentic_demo.Prelude.{
  ℕ, zero, suc, ◌+◌, ◌≤◌, ◌<◌, ◌≡◌, refl, sym, ap, ◌∙◌, inl, inr, true, false, List, [], ◌∷◌, ◌++◌,
  Text, Result, ok, err, leb, length, arith, Bool-cases, Option-cases, if◌then◌else◌,
}
use agentic_demo.Reports.AgentLoop.{
  ToolCall, Completion, UsageEvent, llm_usage, tool_usage, AgentResult, AgentError, AgentEnv, State,
  seen, call_key, skip_call, invoke_call, one_call, Batch, all_answered, limit_reached,
  process_calls, synthesize, answered, with_calls, loop, start, run, user, synthesis_request,
  after_batch, after_answer,
}

-- The LLM events, and the tool events, of a list.
abbrev pub llm_events : List UsageEvent → ℕ
llm_events [] = 0
llm_events (llm_usage m i o ∷ es) = suc (llm_events es)
llm_events (tool_usage t m b ∷ es) = llm_events es

abbrev pub tool_events : List UsageEvent → ℕ
tool_events [] = 0
tool_events (llm_usage m i o ∷ es) = tool_events es
tool_events (tool_usage t m b ∷ es) = suc (tool_events es)

llm_events-append :
    (es fs : List UsageEvent) → llm_events (es ++ fs) ≡ llm_events es + llm_events fs
llm_events-append [] fs = omega arith
llm_events-append (llm_usage m i o ∷ es) fs = omega (arith, llm_events-append es fs)
llm_events-append (tool_usage t m b ∷ es) fs = llm_events-append es fs

tool_events-append :
    (es fs : List UsageEvent) → tool_events (es ++ fs) ≡ tool_events es + tool_events fs
tool_events-append [] fs = omega arith
tool_events-append (llm_usage m i o ∷ es) fs = tool_events-append es fs
tool_events-append (tool_usage t m b ∷ es) fs = omega (arith, tool_events-append es fs)

-- No key stands twice.
abbrev pub Distinct : List Text → Type 0
Distinct [] = Unit
Distinct (k ∷ ks) = (seen k ks ≡ false) × Distinct ks

record Inv (env : AgentEnv) (s : State) : Type 0 where
  few_tools : s.tool_calls ≤ env.max_tool_calls
  completed : s.completions ≡ s.llm_calls
  llm_billed : llm_events s.events ≡ s.llm_calls
  tools_billed : tool_events s.events ≡ s.tool_calls
  counted : length s.invoked ≡ s.tool_calls
  recorded : s.invoked ≡ s.history
  distinct : Distinct s.invoked

module _ (env : AgentEnv) where
  skip_call-Inv : (s : State) (tc : ToolCall) → Inv env s → Inv env (skip_call s tc)
  unfolding skip_call
  skip_call-Inv s tc v = record {
    few_tools = v.few_tools;
    completed = v.completed;
    llm_billed = v.llm_billed;
    tools_billed = v.tools_billed;
    counted = v.counted;
    recorded = v.recorded;
    distinct = v.distinct;
  }

  invoke_call-Inv :
      (model : Text) (s : State) (tc : ToolCall)
      → Inv env s
      → s.tool_calls < env.max_tool_calls
      → seen (call_key tc) s.history ≡ false
      → Inv env (invoke_call env model s tc)
  unfolding invoke_call
  invoke_call-Inv model s tc v h n = record {
    few_tools = h;
    completed = v.completed;
    llm_billed =
        omega (arith, v.llm_billed, llm_events-append s.events (tool_usage tc.name model _ ∷ []));
    tools_billed =
        omega
          (arith, v.tools_billed, tool_events-append s.events (tool_usage tc.name model _ ∷ []));
    counted = omega (arith, v.counted);
    recorded = ap (◌∷◌ (call_key tc)) v.recorded;
    distinct = (rw v.recorded n, v.distinct);
  }

  one_call-Inv :
      (model : Text) (s : State) (tc : ToolCall)
      → Inv env s
      → s.tool_calls < env.max_tool_calls
      → Inv env (one_call env model s tc) × ((one_call env model s tc).llm_calls ≡ s.llm_calls)
  unfolding one_call
  one_call-Inv model s tc v h = elim (Bool-cases (seen (call_key tc) s.history)) [
    | inl e ↦ rw e (skip_call-Inv s tc v, unfold skip_call in refl)
    | inr e ↦ rw e (invoke_call-Inv model s tc v h e, unfold invoke_call in refl)
  ]

  state_of : Batch → State
  state_of (all_answered s) = s
  state_of (limit_reached s) = s

  process_calls-Inv :
      (model : Text) (s : State) (tcs : List ToolCall)
      → Inv env s
      → Inv env (state_of (process_calls env model s tcs))
        × ((state_of (process_calls env model s tcs)).llm_calls ≡ s.llm_calls)
  unfolding process_calls state_of
  process_calls-Inv model s [] v = (v, refl)
  process_calls-Inv model s (tc ∷ tcs) v = elim (Bool-cases (leb env.max_tool_calls s.tool_calls)) [
    | inl e ↦ rw (e, process_calls, state_of) (v, refl)
    | inr e ↦
        let (w, same) = one_call-Inv model s tc v (ground arith) in
        let (u, more) = process_calls-Inv model (one_call env model s tc) tcs w in
        rw (e, process_calls, state_of) (u, more ∙ same)
  ]

  with_calls-Inv : (s : State) (tcs : List ToolCall) → Inv env s → Inv env (with_calls s tcs)
  unfolding with_calls
  with_calls-Inv s tcs v = record {
    few_tools = v.few_tools;
    completed = v.completed;
    llm_billed = v.llm_billed;
    tools_billed = v.tools_billed;
    counted = v.counted;
    recorded = v.recorded;
    distinct = v.distinct;
  }

  calls_of : (s : State) (c : Completion) → (answered s c).llm_calls ≡ s.llm_calls + 1
  unfolding answered
  calls_of s c = omega arith

  with_calls_same :
      (s : State) (c : Completion) (tcs : List ToolCall)
      → (with_calls (answered s c) tcs).llm_calls ≡ (answered s c).llm_calls
  unfolding with_calls
  with_calls_same s c tcs = refl

  answered-Inv : (s : State) (c : Completion) → Inv env s → Inv env (answered s c)
  unfolding answered
  answered-Inv s c v = record {
    few_tools = v.few_tools;
    completed = omega (arith, v.completed);
    llm_billed = omega (
      arith,
      v.llm_billed,
      llm_events-append s.events (llm_usage c.model c.input_tokens c.output_tokens ∷ []),
    );
    tools_billed = omega (
      arith,
      v.tools_billed,
      tool_events-append s.events (llm_usage c.model c.input_tokens c.output_tokens ∷ []),
    );
    counted = v.counted;
    recorded = v.recorded;
    distinct = v.distinct;
  }
