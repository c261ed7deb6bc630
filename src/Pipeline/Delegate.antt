-- ===== src/Pipeline/Delegate.antt =====
-- src/tools/delegate-tool.ts: the tool by which an orchestrator has another stage do a task, over the same
-- models as Pipeline/Execute. An argument that is no text counts as missing.
pub mod Texts
pub mod Agents
pub mod Laws
use Prim.Native.String.{len}
use open_thinking.Base.{
  ℕ, String, ◌+◌, ◌-◌, Bool, true, false, not, Option, none, some, List, [], ◌∷◌, ◌++◌, ◌==◌, ltb,
  if◌then◌else◌, map, keep, is_empty, length, take,
}
use open_thinking.Base.Texts.{join, show, contains, slice_to}
use open_thinking.Result.{Result, ok, err}
use open_thinking.Errors.{ContextError}
use open_thinking.Types.{StageDefinition, orchestrator, TokenUsage}
use open_thinking.Chat.{Message, user, ChatRequest}
use open_thinking.Agent.Text.{◌⋯◌, Args, text_arg, to_fixed_1}
use open_thinking.Agent.Memory.{Environment, WorkSummary}
use open_thinking.Agent.Loop.{AgentLoopConfig, AgentLoopResult, AgentError}
use open_thinking.Agent.Loop.Rounds.{run_agent_loop}
use open_thinking.Policy.Access.{
  Permissions, check_read_access, check_write_access, filter_readable_keys,
}
use open_thinking.Context.Database.{Database}
use open_thinking.Context.Store
use open_thinking.Context.Store.{Config, ContextEntry}
use open_thinking.Pipeline.Order.{Stages}
use open_thinking.Pipeline.Stage.{StageResult, success, not_run}
use open_thinking.Pipeline.Payload.{
  Payload, StageEvent, context_write, delegate_start, delegate_complete, delegate_error, find_entry,
  is_allowed, inline_text, is_small,
}
use open_thinking.Pipeline.Execute.{
  Shared, Equipment, StageDeps, tools_or, iterations_or, emit_all, estimate_stage_cost,
}
use open_thinking.Pipeline.Delegate.Texts.{build_context_block, build_delegate_summary}

unfoldable pub is_worker : String × StageDefinition → Bool
is_worker (name, stage_def) = elim stage_def.role [ none ↦ true | some orchestrator ↦ false ]

unfoldable pub available_agents : Stages → List String
unfolding is_worker
available_agents stages = map (λ x. x.0) (keep is_worker stages)

-- `config.stages[name]`
unfoldable pub stage_named : String → Stages → Option StageDefinition
stage_named name [] = none
stage_named name ((n, stage_def) ∷ stages) =
    let rest = stage_named name stages in if n == name then some stage_def else rest

-- `${args.name}` of an argument.
unfoldable pub shown_arg : String → Args → String
unfolding text_arg
shown_arg key args = elim (text_arg key args.texts) [ none ↦ "undefined" | some value ↦ value ]

-- What the tool returns, and the result that a `delegate:complete` event reports.
pub record Reply : Type 0 where
  pub value : Result String String
  pub completed : Option StageResult

abbrev pub refuse : String → Reply
refuse e = record { value = err e; completed = none }

module _ {Db W : Type 0} (store : Config) (db : Database Db) (deps : StageDeps Db W)
    (stages : Stages) where
  module _ (agent_name : String) (stage_def : StageDefinition) where
    unfoldable pub delegate_equipment : Equipment
    unfolding tools_or
    delegate_equipment = record {
      provider = stage_def.provider;
      stage_name = agent_name;
      allowed_tools = tools_or stage_def.allowed_tools (deps.skill_tools stage_def.skill);
      permissions = stage_def.context;
      sandboxed = false;
    }

    -- No messages are injected into the run of an agent.
    unfoldable pub delegate_environment : Environment (Shared Db W)
    unfolding delegate_equipment
    delegate_environment = record (deps.environment delegate_equipment) { injected = none }

    unfoldable pub delegate_prompt : (persistent : String) → String
    delegate_prompt persistent =
        let base : String = elim (deps.skill_prompt stage_def.skill) [
          | none ↦ "You are the \"" ⋯ agent_name ⋯ "\" agent in an AI pipeline."
          | some prompt ↦ prompt
        ] in
        if persistent == "" then base else base ⋯ "\n\n--- Persistent Context ---\n" ⋯ persistent

    unfoldable pub delegate_config : (task block persistent : String) → AgentLoopConfig
    unfolding delegate_environment delegate_prompt iterations_or
    delegate_config task block persistent =
        let message : Message = record {
          role = user;
          content = task ⋯ (if block == "" then "" else "\n\n" ⋯ block);
          tool_call_id = none;
          tool_calls = [];
        } in
        let request : ChatRequest = record {
          model = stage_def.model;
          messages = message ∷ [];
          system_prompt = some (delegate_prompt persistent);
          tools = delegate_environment.definitions;
          tool_choice = none;
        } in
        record {
          request = request;
          max_iterations = iterations_or stage_def.max_iterations;
          initial_context_bytes = some (len block);
          initial_persistent_context_bytes = some (len persistent);
          require_tool_call_on_first_iteration = false;
        }

    abbrev pub delegate_key : String
    delegate_key = agent_name ⋯ ".output"

    -- The output is written where the agent may write it; a failure of the store is not looked at.
    unfoldable pub keep_output : (output : String) → Shared Db W → List String × Shared Db W
    unfolding emit_all
    keep_output output s = elim (check_write_access agent_name stage_def.context delegate_key) [
      | err e ↦ ([], s)
      | ok allowed ↦
          let (stored, d) =
            Store.set store db (deps.now s.world) delegate_key output agent_name s.db in
          (
            delegate_key ∷ [],
            emit_all store db deps (context_write agent_name delegate_key ∷ [])
                (record s { db = d }),
          )
    ]

    unfoldable pub finish_delegate :
        Result AgentLoopResult AgentError → Shared Db W → Reply × Shared Db W
    unfolding keep_output emit_all estimate_stage_cost build_delegate_summary
    finish_delegate (err e) s =
        let error = deps.agent_text e in
        (
          refuse ("Agent \"" ⋯ agent_name ⋯ "\" failed: " ⋯ error),
          emit_all store db deps (delegate_error agent_name error ∷ []) s,
        )
    finish_delegate (ok agent) s =
        let (keys, s') = keep_output agent.final_content s in
        let result : StageResult = record (not_run success agent_name) {
          output = some agent.final_content;
          usage = some agent.total_usage;
          cost = some (
              estimate_stage_cost store db deps agent.total_usage stage_def.model
                (deps.provider_type stage_def.provider));
          context_keys_written = keys;
          stop_reason = some agent.stop_reason;
          work_summary = some agent.work_summary;
        } in
        let summary =
          build_delegate_summary agent_name delegate_key agent.final_content agent.work_summary in
        (
          record { value = ok summary; completed = some result },
          emit_all store db deps (delegate_complete agent_name result ∷ []) s',
        )

    -- The run of the agent: its result, and the state that it leaves.
    unfoldable pub run_agent :
        (task : String) → Shared Db W → Result AgentLoopResult AgentError × Shared Db W
    unfolding delegate_environment delegate_config build_context_block emit_all
    run_agent task s =
        let started =
          emit_all store db deps (delegate_start agent_name stage_def.model task ∷ []) s in
        let entries = Store.list store db (deps.now s.world) none s.db in
        let block = build_context_block agent_name stage_def.context entries in
        let persistent = deps.persistent_block agent_name s.world in
        let (result, left, s') =
          run_agent_loop delegate_environment (delegate_config task block persistent) started in
        (result, s')

    unfoldable pub run_delegate : (task : String) → Shared Db W → Reply × Shared Db W
    unfolding run_agent finish_delegate
    run_delegate task s = let (result, s') = run_agent task s in finish_delegate result s'

  abbrev pub unknown_agent : (shown : String) → Reply
  unknown_agent shown =
      refuse ("Unknown agent \"" ⋯ shown ⋯ "\". Available: " ⋯ join ", " (available_agents stages))

  unfoldable pub delegate_to : (agent_name task : String) → Shared Db W → Reply × Shared Db W
  unfolding available_agents stage_named run_delegate
  delegate_to agent_name task s = elim (contains (available_agents stages) agent_name) [
    | false ↦ (unknown_agent agent_name, s)
    | true ↦ elim (stage_named agent_name stages) [
      | none ↦ (refuse ("Stage definition not found for \"" ⋯ agent_name ⋯ "\""), s)
      | some stage_def ↦ elim (deps.has_provider stage_def.provider) [
        | false ↦ (
          refuse (
              "Provider \"" ⋯ stage_def.provider ⋯ "\" not found for agent \"" ⋯ agent_name ⋯ "\""),
          s,
        )
        | true ↦ run_delegate agent_name stage_def task s
      ]
    ]
  ]

  -- `execute`
  unfoldable pub delegate : Args → Shared Db W → Reply × Shared Db W
  unfolding text_arg shown_arg delegate_to
  delegate args s = elim (text_arg "agent" args.texts) [
    | none ↦ (unknown_agent "undefined", s)
    | some agent_name ↦ delegate_to agent_name (shown_arg "task" args) s
  ]
