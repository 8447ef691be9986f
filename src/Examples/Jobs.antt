-- ===== src/Examples/Jobs.antt =====
-- Inputs for the rate limiter, the language-model client, the tools and the report loop.
use agentic_demo.Prelude.{
  map, keep_if, ℕ, zero, suc, ◌+◌, ◌≤◌, ◌≡◌, refl, max, true, false, none, some, List, [], ◌∷◌,
  Text, lit, text_eq, ok, err, arith,
}
use agentic_demo.Queue.RateLimit.{acquire}
use agentic_demo.Queue.RateLimit.Workers.{
  System, Step, crash, Reach, here, next, idle, jobs_of, shown, Reach-limit,
}
use agentic_demo.Llm.Client.{Client, Chat, Context, Options, complete}
use agentic_demo.Llm.Client.Retries.{Given, complete-Given}
use agentic_demo.Tools.Registry.{Tool, Registry, new_registry, register, list_tools}
use agentic_demo.Tools.Registry.Permissions.{is_executed, list_tools-invoke}
use agentic_demo.Reports.AgentLoop.{AgentEnv, Completion, ToolCall, State, run, process_calls}
use agentic_demo.Reports.AgentLoop
use agentic_demo.Reports.AgentLoop.Bounds.Outcome.{Final, run-Final}
use agentic_demo.Reports.AgentLoop.Answers.{Answered, process_calls-Answered}

abbrev acme : Text
acme = lit "acme"

-- One job of a tenant that is running, and then lost.
abbrev started : System
started = record idle { counters = (acquire 1 true idle.counters acme).0; running = acme ∷ [] }

abbrev lost_one : System
lost_one = record started { running = []; lost = acme ∷ [] }

started-Reach : Reach 1 idle started
unfolding acquire
started-Reach = next here (Step.start acme refl refl)

lost_Reach : Reach 1 idle lost_one
lost_Reach = next started-Reach (crash [] acme [] refl refl)

Reach-limit_example :
    (shown started.counters acme ≡ jobs_of acme started.running + jobs_of acme started.lost)
    × (jobs_of acme started.running ≤ max 1 1)
Reach-limit_example = Reach-limit 1 acme started-Reach

one_lost : 1 ≤ jobs_of acme lost_one.lost
unfolding jobs_of text_eq
one_lost = omega arith

abbrev second_answers : Chat ℕ
second_answers zero = err 503
second_answers (suc n) = ok 7

abbrev open_context : Context
open_context = record { ended_after = λ n. false; ended_waiting = λ n. false }

abbrev client : Client ℕ
client = record {
  primary = second_answers;
  fallback = none;
  max_retries = 2;
  budget_checker = none;
}

abbrev options : Options
options = record { tenant_id = acme; model = lit "qwen-plus"; max_tokens = 0 }

complete-Given_example :
    ((complete client open_context open_context [] options).primary_calls ≤ 2 + 1)
    × ((complete client open_context open_context [] options).fallback_calls ≤ 2 + 1)
    × Given client (complete client open_context open_context [] options).outcome
complete-Given_example = complete-Given client open_context open_context [] options

abbrev search_tool : Tool
search_tool = record {
  schema = record { name = lit "web_search"; description = lit "Search."; parameters = lit "{}" };
  execute = λ p. p;
}

abbrev registry : Registry
registry = register new_registry (lit "search") search_tool

list_tools-invoke_example :
    list_tools registry acme
    ≡ map
        (λ (q : Text × Tool). q.1.schema)
        (keep_if (λ (q : Text × Tool). is_executed registry acme (lit "q") q.0) registry.tools)
unfolding register new_registry
list_tools-invoke_example = list_tools-invoke registry acme (lit "q") (tt, tt)

-- A model that asks for a tool whenever tools are offered.
abbrev one_call_each : AgentEnv
one_call_each = record {
  complete = λ n ms tools. some (record {
    text = lit "report";
    tool_calls = record { id = lit "1"; name = lit "search"; params = lit "q" } ∷ [];
    input_tokens = 10;
    output_tokens = 5;
    model = lit "qwen-plus";
  });
  invoke = λ n name params. record { output = lit "found"; error = [] };
  max_tool_calls = 2;
  max_llm_calls = 3;
}

run-Final_example :
    Final one_call_each
      (run one_call_each (lit "system") (lit "user")).0
      (run one_call_each (lit "system") (lit "user")).1
run-Final_example = run-Final one_call_each (lit "system") (lit "user")

abbrev two_calls : List ToolCall
two_calls =
    record { id = lit "1"; name = lit "search"; params = lit "q" }
    ∷ record { id = lit "2"; name = lit "search"; params = lit "q" }
    ∷ []

process_calls-Answered_example : Answered (AgentLoop.start (lit "system") (lit "user")) two_calls (
    process_calls one_call_each
      (lit "qwen-plus")
      (AgentLoop.start (lit "system") (lit "user"))
      two_calls)
process_calls-Answered_example =
    process_calls-Answered one_call_each (lit "qwen-plus")
      (AgentLoop.start (lit "system") (lit "user")) two_calls
