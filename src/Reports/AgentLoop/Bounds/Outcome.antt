-- ===== src/Reports/AgentLoop/Bounds/Outcome.antt =====
-- What holds when Run of internal/reports/agent_loop.go returns.
use agentic_demo.Prelude.{
  ℕ, zero, suc, ◌+◌, ◌≤◌, ◌≡◌, refl, sym, inl, inr, true, false, List, [], ◌∷◌, ◌++◌, Text, Result,
  ok, err, length, arith, Option-cases, if◌then◌else◌,
}
use agentic_demo.Reports.AgentLoop.{
  ToolCall, Completion, AgentResult, AgentError, AgentEnv, State, Batch, all_answered,
  limit_reached, process_calls, synthesize, answered, with_calls, loop, start, run, user,
  synthesis_request, after_batch, after_answer,
}
use agentic_demo.Reports.AgentLoop.Bounds.{
  llm_events, tool_events, Distinct, Inv, state_of, process_calls-Inv, with_calls-Inv, calls_of,
  with_calls_same, answered-Inv,
}

module _ (env : AgentEnv) where
  -- What holds of a result: it reports the calls that were made, and one call of the model more than
  -- was billed exactly if it was synthesized.
  abbrev pub Reported : State → Result AgentError AgentResult → Type 0
  Reported s (err e) = Unit
  Reported s (ok r) =
      (r.llm_calls ≡ s.completions)
      × (r.tool_calls ≡ s.tool_calls)
      × (tool_events s.events ≡ r.tool_calls)
      × (r.llm_calls ≡ llm_events s.events + (if r.synthesized then 1 else 0))

  -- What holds when `Run` returns.
  pub record Final (s : State) (result : Result AgentError AgentResult) : Type 0 where
    pub llm_bound : s.completions ≤ env.max_llm_calls + 1
    pub tool_bound : length s.invoked ≤ env.max_tool_calls
    pub no_repeats : Distinct s.invoked
    pub reported : Reported s result

  synthesize-Final :
      (s : State)
      → Inv env s
      → s.llm_calls ≤ env.max_llm_calls
      → Final (synthesize env s).0 (synthesize env s).1
  unfolding synthesize
  synthesize-Final s v h =
      elim (Option-cases
        (env.complete s.completions (s.msgs ++ (user synthesis_request ∷ [])) false)) [
          | inl e ↦
              rw (e, synthesize)
                (record {
                  llm_bound = omega arith;
                  tool_bound = omega arith;
                  no_repeats = v.distinct;
                  reported = tt;
                })
          | inr (c, e) ↦
              rw (e, synthesize)
                (record {
                  llm_bound = omega arith;
                  tool_bound = omega arith;
                  no_repeats = v.distinct;
                  reported = (omega arith, refl, v.tools_billed, omega arith);
                })
        ]

  after_batch-Final :
      (next : State → State × Result AgentError AgentResult) (b : Batch) (most : ℕ)
      → ((s : State) → Inv env s → s.llm_calls ≤ most → Final (next s).0 (next s).1)
      → most ≤ env.max_llm_calls
      → Inv env (state_of env b)
      → (state_of env b).llm_calls ≤ most
      → Final (after_batch env next b).0 (after_batch env next b).1
  unfolding state_of
  after_batch-Final next (all_answered s) most go k v h = go s v h
  after_batch-Final next (limit_reached s) most go k v h = synthesize-Final s v (omega arith)

  after_answer-Final :
      (next : State → State × Result AgentError AgentResult) (s : State) (c : Completion)
      (tcs : List ToolCall)
      → ((s' : State) → Inv env s' → s'.llm_calls ≤ s.llm_calls + 1 → Final (next s').0 (next s').1)
      → s.llm_calls + 1 ≤ env.max_llm_calls
      → Inv env s
      → Final (after_answer env next s c tcs).0 (after_answer env next s c tcs).1
  after_answer-Final next s c [] go k v =
      let w = answered-Inv env s c v in
      record {
        llm_bound = omega (arith, calls_of env s c, w.completed);
        tool_bound = omega (arith, w.counted, w.few_tools);
        no_repeats = w.distinct;
        reported = (sym w.completed, refl, w.tools_billed, omega (arith, w.llm_billed));
      }
  after_answer-Final next s c (tc ∷ tcs) go k v =
      let s' = with_calls (answered s c) (tc ∷ tcs) in
      let w = with_calls-Inv env (answered s c) (tc ∷ tcs) (answered-Inv env s c v) in
      let (u, same) = process_calls-Inv env c.model s' (tc ∷ tcs) w in
      after_batch-Final next (process_calls env c.model s' (tc ∷ tcs)) (s.llm_calls + 1) go k u
        (omega (arith, same, calls_of env s c, with_calls_same env s c (tc ∷ tcs)))

  loop-Final :
      (rounds : ℕ) (s : State)
      → Inv env s
      → s.llm_calls + rounds ≤ env.max_llm_calls
      → Final (loop env rounds s).0 (loop env rounds s).1
  unfolding loop
  loop-Final zero s v h = synthesize-Final s v (omega arith)
  loop-Final (suc rounds) s v h = elim (Option-cases (env.complete s.completions s.msgs true)) [
    | inl e ↦
        rw (e, loop)
          (record {
            llm_bound = omega arith;
            tool_bound = omega arith;
            no_repeats = v.distinct;
            reported = tt;
          })
    | inr (c, e) ↦
        rw (e, loop)
          (after_answer-Final (loop env rounds) s c c.tool_calls
            (λ s' w k. loop-Final rounds s' w (omega arith)) (omega arith) v)
  ]

-- However the model and the tools answer, `Run` returns after at most one call of the model more than
-- the limit, having invoked at most the allowed number of tools, none twice with the same
-- parameters. A result reports the calls that were made. Every tool call is billed; of the calls of
-- the model all but the synthesis are.
pub run-Final :
    (env : AgentEnv) (system_prompt gathered : Text)
    → Final env (run env system_prompt gathered).0 (run env system_prompt gathered).1
unfolding run start
run-Final env system_prompt gathered =
    loop-Final env env.max_llm_calls (start system_prompt gathered)
      (record {
        few_tools = omega arith;
        completed = refl;
        llm_billed = refl;
        tools_billed = refl;
        counted = refl;
        recorded = refl;
        distinct = tt;
      })
      (omega arith)
