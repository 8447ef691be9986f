-- ===== src/Reports/AgentLoop.antt =====
-- internal/reports/agent_loop.go: the bounded loop of language-model calls and tool calls. The model,
-- the tools and the system prompt are arguments; each call of them gets its number, so that they may
-- answer the same question differently. Usage events are kept in the order of their emission.
pub mod Bounds
pub mod Answers
use agentic_demo.Prelude.{
  ℕ, zero, suc, ◌+◌, ◌-◌, Bool, true, false, Option, none, some, List, [], ◌∷◌, ◌++◌, Text, lit,
  text_eq, is_empty, Result, ok, err, leb, ltb, if◌then◌else◌, ◌||◌,
}

-- `params` is the text that `%v` prints of the parameters.
pub record ToolCall : Type 0 where
  pub id : Text
  pub name : Text
  pub params : Text

pub record Completion : Type 0 where
  pub text : Text
  pub tool_calls : List ToolCall
  pub input_tokens : ℕ
  pub output_tokens : ℕ
  pub model : Text

pub record ToolResult : Type 0 where
  pub output : Text
  pub error : Text

pub data Message : Type 0 where
  system user : Text → Message
  assistant : List ToolCall → Message
  tool : Text → Text → Message

pub data UsageEvent : Type 0 where
  llm_usage : Text → ℕ → ℕ → UsageEvent
  tool_usage : Text → Text → Bool → UsageEvent

pub record AgentResult : Type 0 where
  pub content : Text
  pub llm_calls : ℕ
  pub tool_calls : ℕ
  pub synthesized : Bool
  pub input_tokens : ℕ
  pub output_tokens : ℕ

pub data AgentError : Type 0 where
  llm_call synthesis_call : AgentError

-- The model is given the number of the call, the messages, and whether tools are offered.
pub record AgentEnv : Type 0 where
  pub complete : ℕ → List Message → Bool → Option Completion
  pub invoke : ℕ → Text → Text → ToolResult
  pub max_tool_calls : ℕ
  pub max_llm_calls : ℕ

-- The variables of `Run`. `history` holds the keys of `toolCallHistory`, newest first, and `invoked`
-- the key of each tool that was really invoked, newest first. `completions` counts all calls of the
-- model that returned.
pub record State : Type 0 where
  pub msgs : List Message
  pub llm_calls : ℕ
  pub tool_calls : ℕ
  pub history : List Text
  pub invoked : List Text
  pub events : List UsageEvent
  pub completions : ℕ

unfoldable pub seen : Text → List Text → Bool
seen key [] = false
seen key (k ∷ ks) = text_eq key k || seen key ks

unfoldable pub call_key : ToolCall → Text
call_key tc = tc.name ++ (lit ":" ++ tc.params)

duplicate_note : Text
duplicate_note =
    lit
      "{\"error\": \"duplicate_call\", \"message\": \"This call was already made with the same parameters.\"}"

unfoldable pub tool_content : ToolCall → ToolResult → Text
tool_content tc r =
    if is_empty r.error
    then r.output
    else lit "{\"error\": \"" ++ (tc.name ++ (lit " failed: " ++ (r.error ++ lit "\"}")))

-- A repeated call: its answer says so, and nothing is invoked.
unfoldable pub skip_call : State → ToolCall → State
unfolding duplicate_note
skip_call s tc = record s { msgs = s.msgs ++ (tool tc.id duplicate_note ∷ []) }

-- A new call: it is recorded, invoked, billed and answered.
unfoldable pub invoke_call : AgentEnv → Text → State → ToolCall → State
unfolding call_key tool_content is_empty
invoke_call env model s tc =
    let r = env.invoke s.tool_calls tc.name tc.params in
    record s {
      history = call_key tc ∷ s.history;
      invoked = call_key tc ∷ s.invoked;
      events = s.events ++ (tool_usage tc.name model (is_empty r.error) ∷ []);
      msgs = s.msgs ++ (tool tc.id (tool_content tc r) ∷ []);
      tool_calls = suc s.tool_calls;
    }

unfoldable pub one_call : AgentEnv → Text → State → ToolCall → State
unfolding skip_call invoke_call seen
one_call env model s tc =
    if seen (call_key tc) s.history then skip_call s tc else invoke_call env model s tc

-- How the loop over the tool calls of an answer ends: all are answered, or the limit on tool calls
-- forces the synthesis.
pub data Batch : Type 0 where
  all_answered limit_reached : State → Batch

unfoldable pub process_calls : AgentEnv → Text → State → List ToolCall → Batch
unfolding one_call
process_calls env model s [] = all_answered s
process_calls env model s (tc ∷ tcs) = elim (leb env.max_tool_calls s.tool_calls) [
  | true ↦ limit_reached s
  | false ↦ process_calls env model (one_call env model s tc) tcs
]

synthesis_request : Text
synthesis_request =
    lit
      "You have gathered enough context. Please produce the final report now. Include source citations."

abbrev synthesized_result : State → Option Completion → State × Result AgentError AgentResult
synthesized_result s none = (s, err synthesis_call)
synthesized_result s (some c) = (
  record s { completions = suc s.completions },
  ok (record {
    content = c.text;
    llm_calls = s.llm_calls + 1;
    tool_calls = s.tool_calls;
    synthesized = true;
    input_tokens = c.input_tokens;
    output_tokens = c.output_tokens;
  }),
)

-- `synthesize`: one more call, without tools.
unfoldable pub synthesize : AgentEnv → State → State × Result AgentError AgentResult
unfolding synthesis_request
synthesize env s =
    synthesized_result s
      (env.complete s.completions (s.msgs ++ (user synthesis_request ∷ [])) false)

-- The state after an answer of the model: counted, and billed.
unfoldable pub answered : State → Completion → State
answered s c = record s {
  llm_calls = suc s.llm_calls;
  completions = suc s.completions;
  events = s.events ++ (llm_usage c.model c.input_tokens c.output_tokens ∷ []);
}

unfoldable pub with_calls : State → List ToolCall → State
with_calls s calls = record s { msgs = s.msgs ++ (assistant calls ∷ []) }

abbrev pub final_result : State → Completion → AgentResult
final_result s c = record {
  content = c.text;
  llm_calls = s.llm_calls;
  tool_calls = s.tool_calls;
  synthesized = false;
  input_tokens = c.input_tokens;
  output_tokens = c.output_tokens;
}

-- After the tool calls: the synthesis, or the next round of the loop.
abbrev pub after_batch :
    AgentEnv
    → (State → State × Result AgentError AgentResult)
    → Batch
    → State × Result AgentError AgentResult
after_batch env next (limit_reached s) = synthesize env s
after_batch env next (all_answered s) = next s

-- After an answer of the model: the report if it calls no tool, or its tool calls.
abbrev pub after_answer :
    AgentEnv
    → (State → State × Result AgentError AgentResult)
    → State
    → Completion
    → List ToolCall
    → State × Result AgentError AgentResult
after_answer env next s c [] = (answered s c, ok (final_result (answered s c) c))
after_answer env next s c (tc ∷ tcs) =
    after_batch env next
      (process_calls env c.model (with_calls (answered s c) (tc ∷ tcs)) (tc ∷ tcs))

-- The `for` loop of `Run` with `rounds` calls of the model left.
unfoldable pub loop : AgentEnv → ℕ → State → State × Result AgentError AgentResult
loop env zero s = synthesize env s
loop env (suc rounds) s = elim (env.complete s.completions s.msgs true) [
  | none ↦ (s, err llm_call)
  | some c ↦ after_answer env (loop env rounds) s c c.tool_calls
]

unfoldable pub start : Text → Text → State
start system_prompt gathered = record {
  msgs = system system_prompt ∷ user gathered ∷ [];
  llm_calls = 0;
  tool_calls = 0;
  history = [];
  invoked = [];
  events = [];
  completions = 0;
}

-- `Run`.
unfoldable pub run : AgentEnv → Text → Text → State × Result AgentError AgentResult
unfolding loop start process_calls synthesize answered with_calls
run env system_prompt gathered = loop env env.max_llm_calls (start system_prompt gathered)
