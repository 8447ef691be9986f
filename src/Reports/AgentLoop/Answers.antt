-- ===== src/Reports/AgentLoop/Answers.antt =====
-- Which tool calls of an answer are answered in the conversation of internal/reports/agent_loop.go.
use agentic_demo.Prelude.{
  ◌≡◌, refl, sym, ap, ◌∙◌, inl, inr, List, [], ◌∷◌, ◌++◌, map, Text, leb, append_assoc, append-nil,
  Bool-cases,
}
use agentic_demo.Reports.AgentLoop.{
  ToolCall, Message, system, user, assistant, tool, AgentEnv, State, seen, call_key, skip_call,
  invoke_call, one_call, Batch, all_answered, limit_reached, process_calls,
}

-- The calls that the tool messages of a conversation answer, in order.
abbrev pub answered_ids : List Message → List Text
answered_ids [] = []
answered_ids (tool id content ∷ ms) = id ∷ answered_ids ms
answered_ids (system t ∷ ms) = answered_ids ms
answered_ids (user t ∷ ms) = answered_ids ms
answered_ids (assistant tcs ∷ ms) = answered_ids ms

answered_ids-snoc :
    (ms : List Message) (id content : Text)
    → answered_ids (ms ++ (tool id content ∷ [])) ≡ answered_ids ms ++ (id ∷ [])
answered_ids-snoc [] id content = refl
answered_ids-snoc (tool i c ∷ ms) id content = ap (◌∷◌ i) (answered_ids-snoc ms id content)
answered_ids-snoc (system t ∷ ms) id content = answered_ids-snoc ms id content
answered_ids-snoc (user t ∷ ms) id content = answered_ids-snoc ms id content
answered_ids-snoc (assistant tcs ∷ ms) id content = answered_ids-snoc ms id content

answered_ids-one_call :
    (env : AgentEnv) (model : Text) (s : State) (tc : ToolCall)
    → answered_ids (one_call env model s tc).msgs ≡ answered_ids s.msgs ++ (tc.id ∷ [])
unfolding one_call
answered_ids-one_call env model s tc = elim (Bool-cases (seen (call_key tc) s.history)) [
  | inl e ↦ rw e (unfold skip_call in answered_ids-snoc s.msgs tc.id _)
  | inr e ↦ rw e (unfold invoke_call in answered_ids-snoc s.msgs tc.id _)
]

-- What a batch has answered: each of the calls, in their order, or, at the limit, only those in front
-- of some call.
abbrev pub Answered : State → List ToolCall → Batch → Type 0
Answered s tcs (all_answered s') =
    answered_ids s'.msgs ≡ answered_ids s.msgs ++ map (λ tc. tc.id) tcs
Answered s tcs (limit_reached s') =
    (done : List ToolCall) × (next : ToolCall) × (left : List ToolCall) × (tcs
      ≡ done ++ (next ∷ left))
    × (answered_ids s'.msgs ≡ answered_ids s.msgs ++ map (λ tc. tc.id) done)

Answered-cons :
    (s t : State) (tc : ToolCall) (tcs : List ToolCall) (b : Batch)
    → answered_ids t.msgs ≡ answered_ids s.msgs ++ (tc.id ∷ [])
    → Answered t tcs b
    → Answered s (tc ∷ tcs) b
Answered-cons s t tc tcs (all_answered s') e h =
    h
    ∙ ap (λ ids. ids ++ map (λ c. c.id) tcs) e
    ∙ append_assoc (answered_ids s.msgs) (tc.id ∷ []) (map (λ c. c.id) tcs)
Answered-cons s t tc tcs (limit_reached s') e (done, next, left, p, h) = (
  tc ∷ done,
  next,
  left,
  ap (◌∷◌ tc) p,
  h
      ∙ ap (λ ids. ids ++ map (λ c. c.id) done) e
      ∙ append_assoc (answered_ids s.msgs) (tc.id ∷ []) (map (λ c. c.id) done),
)

-- The loop over the tool calls of an answer gives each call exactly one tool message, in the order of
-- the calls and also for a repeated call; but when the limit on tool calls forces the synthesis, the
-- call at which it is met and all behind it stay without an answer in the conversation.
pub process_calls-Answered :
    (env : AgentEnv) (model : Text) (s : State) (tcs : List ToolCall)
    → Answered s tcs (process_calls env model s tcs)
unfolding process_calls
process_calls-Answered env model s [] = sym (append-nil (answered_ids s.msgs))
process_calls-Answered env model s (tc ∷ tcs) =
    elim (Bool-cases (leb env.max_tool_calls s.tool_calls)) [
      | inl e ↦ rw (e, process_calls) ([], tc, tcs, refl, sym (append-nil (answered_ids s.msgs)))
      | inr e ↦
          rw (e, process_calls)
            (Answered-cons s (one_call env model s tc) tc tcs _
              (answered_ids-one_call env model s tc)
              (process_calls-Answered env model (one_call env model s tc) tcs))
    ]
