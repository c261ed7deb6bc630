-- ===== src/Pipeline/StageTests.antt =====
-- A run of the planning stage over a context with one entry that it may read and one that it may not.
use open_thinking.Base.{ℕ, String, ◌≡◌, refl, false, none, some, List, [], ◌∷◌, ◌==◌, Elem}
use open_thinking.Result.{ok}
use open_thinking.Chat.{finish_stop}
use open_thinking.Types.{StageDefinition}
use open_thinking.Agent.Memory.{Environment}
use open_thinking.Policy.Access.{
  Permissions, check_read_access, check_write_access, grant, filter_readable_keys,
}
use open_thinking.Policy.Glob.{match_glob}
use open_thinking.Policy.Engine.{try_consume_rate, record_cost}
use open_thinking.Agent.Loop.Rounds.{run_agent_loop}
use open_thinking.Context.Compression.{Gzip, maybe_decompress}
use open_thinking.Context.Database.{Row}
use open_thinking.Context.Memory.{Memory, memory, memory-IsTable, distinct}
use open_thinking.Context.Store
use open_thinking.Context.Store.{Config, ContextEntry, save_snapshot}
use open_thinking.Pipeline.Stage.{success}
use open_thinking.Pipeline.Payload.{
  Payload, context_read, build_context_payload, seed_persistent_lazy_context, write_stage_output,
}
use open_thinking.Pipeline.Payload.Laws.{IsOffered, HasKey, build_context_payload-Offers}
use open_thinking.Pipeline.Execute.{
  Shared, StageDeps, execute_stage, estimate_stage_cost, review_sandbox,
}
use open_thinking.Pipeline.Execute.Laws.{Ends, execute_stage-Ends}

abbrev as_is : Gzip
as_is = record { gzip = λ s. s; gunzip = λ s. some s }

abbrev pub config : Config
config = record {
  zip = as_is;
  default_ttl_ms = none;
  write_json = λ entries. "";
  read_json = λ text. none;
}

abbrev row : String → String → Row
row key value = record {
  key = key;
  value = value;
  created_by = "user";
  created_at = 0;
  expires_at = none;
}

abbrev pub context : Memory
context = (row "input.goal" "a tool" ∷ row "secret.key" "1234" ∷ [], [])

abbrev pub permissions : Permissions
permissions = record { read = "input.*" ∷ []; write = "planning.*" ∷ []; eager = false }

abbrev pub planning : StageDefinition
planning = record {
  provider = "openai";
  model = "gpt-4o";
  skill = "planner";
  system_message = none;
  context = permissions;
  depends_on = none;
  max_iterations = some 3;
  allowed_tools = none;
  role = none;
  fallback_models = none;
  on_fail = none;
  permissions = none;
}

abbrev entry : String → String → ContextEntry
entry key value = record {
  key = key;
  value = value;
  created_by = "user";
  created_at = 0;
  expires_at = none;
}

abbrev listed : List ContextEntry
listed = entry "input.goal" "a tool" ∷ entry "secret.key" "1234" ∷ []

listed-eq : Store.list config memory 10 none context ≡ ok listed
unfolding Store.list distinct maybe_decompress
listed-eq = refl

abbrev offered : Payload
offered = ("input.goal", "a tool") ∷ []

offered-eq :
    build_context_payload config memory 10 "planning" permissions context
    ≡ ok (offered, context_read "planning" "input.goal" ∷ [])
unfolding build_context_payload Store.list distinct maybe_decompress filter_readable_keys match_glob
    check_read_access grant
offered-eq = refl

build_context_payload-Offers_example :
    ((k v : String) → Elem (k, v) offered → IsOffered "planning" permissions listed k v)
    × ((e : ContextEntry)
        → Elem e listed
        → check_read_access "planning" permissions e.key ≡ ok tt
        → HasKey e.key offered)
build_context_payload-Offers_example =
    build_context_payload-Offers config memory 10 "planning" permissions context listed offered
      (context_read "planning" "input.goal" ∷ []) listed-eq offered-eq

-- A model that answers at once.
abbrev pub planner : Environment (Shared Memory ℕ)
planner = record {
  aborted = λ w. false;
  chat = λ request w. (
    ok (record {
      content = "a plan";
      usage = record { prompt_tokens = 20; completion_tokens = 1; total_tokens = 21 };
      tool_calls = [];
      finish_reason = finish_stop;
    }),
    w,
  );
  execute = λ name args w. (ok "", w);
  injected = none;
  on_token_limit = none;
  definitions = [];
  parse_args = λ text. record { json = text; texts = [] };
  content_text = λ args. "";
  error_json = λ message. message;
}

abbrev pub deps : StageDeps Memory ℕ
deps = record {
  now = λ w. w;
  aborted = λ w. false;
  fresh_id = λ w. "s1";
  has_provider = λ name. name == "openai";
  provider_type = λ name. some "openai-compatible";
  learned = λ w. none;
  history = λ w. none;
  persistent_block = λ name w. "";
  skill_prompt = λ skill. none;
  skill_tools = λ skill. none;
  default_mode = none;
  environment = λ equipment. planner;
  create_sandbox = λ name w. w;
  has_diffs = λ w. false;
  apply = λ w. (ok tt, w);
  discard = λ w. w;
  on_sandbox_review = none;
  policy_text = λ e. "policy";
  context_text = λ e. "context";
  agent_text = λ e. "agent";
}

abbrev pub ready : Shared Memory ℕ
ready = record {
  db = context;
  policy = record { rate_limiter = none; cost_tracker = none };
  world = 10;
  events = [];
}

planned :
    (let (r, s) = execute_stage config memory deps "planning" planning ready in
      (r.status ≡ success) × (r.context_keys_written ≡ "planning.output" ∷ []))
unfolding execute_stage try_consume_rate save_snapshot distinct maybe_decompress
    filter_readable_keys match_glob check_read_access check_write_access grant run_agent_loop
    record_cost estimate_stage_cost Store.list Store.set write_stage_output build_context_payload
    review_sandbox seed_persistent_lazy_context
planned = (refl, refl)

execute_stage-Ends_example :
    Ends config memory memory-IsTable deps "planning" planning ready
      (execute_stage config memory deps "planning" planning ready)
execute_stage-Ends_example =
    execute_stage-Ends config memory memory-IsTable deps "planning" planning (λ value. refl) refl
      ready
