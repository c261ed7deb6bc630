-- ===== src/Pipeline/DelegateTests.antt =====
-- An orchestrator that has the planning stage run a command, over the context of Pipeline/StageTests.
use open_thinking.Base.{ℕ, String, ◌≡◌, refl, ◌⊎◌, true, false, none, some, [], ◌∷◌, ◌==◌}
use open_thinking.Result.{ok, err}
use open_thinking.Types.{StageDefinition, orchestrator}
use open_thinking.Chat.{ToolDefinition, finish_stop, finish_tool_calls}
use open_thinking.Agent.Text.{Args, text_arg}
use open_thinking.Agent.Memory.{Environment}
use open_thinking.Agent.Loop.Calls.{run_call}
use open_thinking.Agent.Loop.Rounds.{run_agent_loop}
use open_thinking.Base.Texts.{contains}
use open_thinking.Context.Compression.{maybe_decompress}
use open_thinking.Context.Store
use open_thinking.Context.Store.{save_snapshot}
use open_thinking.Policy.Access.{check_read_access, check_write_access, grant, filter_readable_keys}
use open_thinking.Policy.Glob.{match_glob}
use open_thinking.Policy.Engine.{record_cost}
use open_thinking.Pipeline.Payload.{
  build_context_payload, seed_persistent_lazy_context, write_stage_output,
}
use open_thinking.Pipeline.Execute.{estimate_stage_cost}
use open_thinking.Context.Memory.{Memory, memory, memory-IsTable, distinct}
use open_thinking.Pipeline.Order.{Stages}
use open_thinking.Pipeline.Stage.{success}
use open_thinking.Pipeline.Execute.{Shared, Equipment, StageDeps}
use open_thinking.Pipeline.Delegate.{delegate, shown_arg}
use open_thinking.Pipeline.Delegate.Laws.{Refused, Ran, delegate-Delegated}
use open_thinking.Pipeline.Orchestrate.{execute_orchestrator}
use open_thinking.Pipeline.StageTests.{config, planning, planner, deps, ready}

abbrev pub lead : StageDefinition
lead = record planning { role = some orchestrator }

abbrev pub team : Stages
team = ("lead", lead) ∷ ("planning", planning) ∷ []

abbrev pub tool : ToolDefinition
tool = record { name = "delegate"; description = ""; parameters = "" }

abbrev order : Args
order = record {
  json = "{}";
  texts = ("agent", "planning") ∷ ("task", "plan") ∷ ("command", "ls") ∷ [];
}

-- A model that calls a tool once, and then answers.
abbrev calls_once : String → Environment (Shared Memory ℕ)
calls_once name = record planner {
  chat = λ request w. (
    ok (elim request.messages [
      | _ ∷ [] ↦ record {
        content = "";
        usage = record { prompt_tokens = 20; completion_tokens = 1; total_tokens = 21 };
        tool_calls = record { id = "c1"; name = name; arguments = "" } ∷ [];
        finish_reason = finish_tool_calls;
      }
      | _ ↦ record {
        content = "done";
        usage = record { prompt_tokens = 30; completion_tokens = 1; total_tokens = 31 };
        tool_calls = [];
        finish_reason = finish_stop;
      }
    ]),
    w,
  );
  parse_args = λ text. order;
}

abbrev pub both : StageDeps Memory ℕ
both = record deps {
  environment = λ (equipment : Equipment). elim (equipment.stage_name == "lead") [
    | true ↦ calls_once "delegate"
    | false ↦ calls_once "run_command"
  ];
}

led :
    (let (r, o) =
        execute_orchestrator config memory both team (λ text. text) tool "lead" lead ready in
      (r.status ≡ success) × (o.delegated ≡ true))
unfolding execute_orchestrator save_snapshot distinct maybe_decompress filter_readable_keys
    match_glob check_read_access check_write_access grant run_agent_loop record_cost
    estimate_stage_cost Store.list Store.set write_stage_output build_context_payload
    seed_persistent_lazy_context run_call contains
led = (refl, refl)

delegate-Delegated_example :
    ((text_arg "agent" order.texts ≡ none)
      × ((e : String) × (delegate config memory both team order ready).0.value ≡ err e)
      × ((delegate config memory both team order ready).1 ≡ ready))
    ⊎ ((name : String) × (text_arg "agent" order.texts ≡ some name)
        × (Refused both team name ready (delegate config memory both team order ready)
            ⊎ Ran config memory memory-IsTable both team name
                (shown_arg "task" order)
                ready
                (delegate config memory both team order ready)))
delegate-Delegated_example =
    delegate-Delegated config memory memory-IsTable both team (λ value. refl) refl order ready
