-- ===== src/Agent/Tests.antt =====
-- A run over a model that reads the same file again and again, with eight passes allowed.
use open_thinking.Base.{
  ℕ, ◌+◌, ◌≤◌, ◌<◌, ◌≡◌, refl, true, false, none, [], ◌∷◌, ltb, if◌then◌else◌, length, ◌⊎◌,
}
use open_thinking.Base.Texts.{split}
use Prim.Native.String.{len}
use open_thinking.Result.{ok}
use open_thinking.Chat.{ChatResponse, ToolCall, finish_stop, finish_tool_calls}
use open_thinking.Agent.Text.{newline, truncate_tool_output}
use open_thinking.Agent.Text.Truncation.{IsCut, truncate_tool_output_cases}
use open_thinking.Agent.Loop.{initial_state}
use open_thinking.Agent.Loop.DoomLoop.{IsCached, is_repeat, run_call-IsGuarded}
use open_thinking.Agent.Memory.{ToolCallSignature, cache_key, Environment, same_call, find}
use open_thinking.Agent.Loop.Calls.{Round, make_call, run_call}
use open_thinking.Agent.Loop.{AgentLoopConfig}
use open_thinking.Agent.Loop.Rounds.{user_message, run_agent_loop}
use open_thinking.Agent.Loop.Accounts.{OffersTools, Accounts, run_agent_loop-Accounts}
use open_thinking.Agent.Loop.Accounts.Watched.{watched}

abbrev read_call : ToolCall
read_call = record { id = "call"; name = "read_file"; arguments = "{\"path\":\"a\"}" }

abbrev read_signature : ToolCallSignature
read_signature = record { tool_name = "read_file"; args = read_call.arguments }

abbrev reply : ℕ → ChatResponse
reply turn =
    if ltb turn 4
    then record {
      content = "";
      usage = record { prompt_tokens = 10; completion_tokens = 5; total_tokens = 15 };
      tool_calls = read_call ∷ [];
      finish_reason = finish_tool_calls;
    }
    else record {
      content = "read";
      usage = record { prompt_tokens = 20; completion_tokens = 1; total_tokens = 21 };
      tool_calls = [];
      finish_reason = finish_stop;
    }

-- The world counts the turns of the model and the calls of the tool.
abbrev reader : Environment (ℕ × ℕ)
reader = record {
  aborted = λ w. false;
  chat = λ request (turn, reads). (ok (reply turn), (turn + 1, reads));
  execute = λ name args (turn, reads). (ok "text", (turn, reads + 1));
  injected = none;
  on_token_limit = none;
  definitions = [];
  parse_args = λ text. record { json = text; texts = ("path", "a") ∷ [] };
  content_text = λ args. "";
  error_json = λ message. message;
}

abbrev eight : AgentLoopConfig
eight = record {
  request = record {
    model = "m";
    messages = user_message "Read a." ∷ [];
    system_prompt = none;
    tools = [];
    tool_choice = none;
  };
  max_iterations = 8;
  initial_context_bytes = none;
  initial_persistent_context_bytes = none;
  require_tool_call_on_first_iteration = false;
}

-- Of four equal calls in a row, the last two are answered without the tool.
reads_twice : (run_agent_loop reader eight (0, 0)).2 ≡ (5, 2)
unfolding run_agent_loop run_call same_call find
reads_twice = refl

run_agent_loop-Accounts_example :
    (let out = run_agent_loop (watched reader) eight ((0, 0), []) in
      (length out.2.1 ≤ 8) × OffersTools 8 out.2.1 × Accounts 8 out.2.1 out.0)
run_agent_loop-Accounts_example = run_agent_loop-Accounts reader eight (0, 0)

-- The file was read twice, and is about to be read again.
abbrev twice_read : Round
twice_read = record {
  state = record (initial_state eight) {
    recent_calls = read_signature ∷ read_signature ∷ [];
    cached_results = (cache_key "read_file" read_call.arguments, "text") ∷ [];
  };
  exchange = [];
  summaries = [];
}

twice_read-IsCached : IsCached twice_read.state.recent_calls twice_read.state.cached_results
unfolding find cache_key
twice_read-IsCached = (("text", refl), (("text", refl), tt))

run_call-IsGuarded_example :
    (let out = run_call reader read_call twice_read (1, 1) in
      IsCached out.0.state.recent_calls out.0.state.cached_results
      × (((is_repeat (read_signature ∷ read_signature ∷ []) "read_file" read_call.arguments ≡ true)
            × (out.1 ≡ (1, 1))
            × (out.0.state.work ≡ twice_read.state.work))
          ⊎ ((is_repeat (read_signature ∷ read_signature ∷ []) "read_file" read_call.arguments
                ≡ false)
              × (out
                  ≡ make_call reader read_call
                      (reader.parse_args read_call.arguments)
                      twice_read
                      (1, 1)))))
run_call-IsGuarded_example =
    run_call-IsGuarded reader read_call twice_read (1, 1) twice_read-IsCached

truncate_tool_output_cases_example :
    ((length (split newline "ok") ≤ 2000) × (len "ok" ≤ 51200) × (truncate_tool_output "ok" ≡ "ok"))
    ⊎ (((2000 < length (split newline "ok")) ⊎ (51200 < len "ok")) × IsCut "ok")
truncate_tool_output_cases_example = truncate_tool_output_cases "ok"
