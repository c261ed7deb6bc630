-- ===== src/Pipeline/Execute.antt =====
-- src/pipeline/executor/stage-executor.ts, executeStage: one run of a stage over the context store, the
-- policy engine, the bus and a world that the calls outside this part may change. The clock is a
-- function of the world; durations and the texts of the errors come from it.
pub mod Laws
use Prim.Native.String
use Prim.Native.String.{len}
use open_thinking.Base.{
  ℕ, String, Bool, true, false, ◌&&◌, not, Option, none, some, List, [], ◌∷◌, ◌++◌, ◌==◌, eqb,
  if◌then◌else◌,
}
use open_thinking.Result.{Result, Void, ok, err}
use open_thinking.Errors.{PolicyError, ContextError}
use open_thinking.Types.{StageDefinition, PermissionMode, sandbox, confirm, TokenUsage}
use open_thinking.Chat.{Message, user, ChatRequest}
use open_thinking.Agent.Text.{◌⋯◌}
use open_thinking.Agent.Memory.{Environment}
use open_thinking.Agent.Loop.{AgentLoopConfig, AgentLoopResult, AgentError}
use open_thinking.Agent.Loop.Rounds.{run_agent_loop}
use open_thinking.Policy.Access.{Permissions}
use open_thinking.Policy.Engine
use open_thinking.Policy.Engine.{PolicyEngine}
use open_thinking.Providers.Pricing.{estimate_cost, is_local_provider}
use open_thinking.Context.Database.{Database}
use open_thinking.Context.Store
use open_thinking.Context.Store.{Config}
use open_thinking.Pipeline.Stage.{StageResult, StageStatus, success, failed, skipped, not_run}
use open_thinking.Pipeline.Payload.{
  Payload, StageEvent, context_write, denied, not_stored, stage_start, stage_complete, stage_error,
  stage_warning, policy_violation, build_context_payload, format_context_for_prompt,
  seed_persistent_lazy_context, WriteError, write_stage_output,
}

-- What the stages of a run share.
pub record Shared (Db W : Type 0) : Type 0 where
  pub db : Db
  pub policy : PolicyEngine
  pub world : W
  pub events : List StageEvent

-- What the agent of a stage may use: createToolRegistry and the provider.
pub record Equipment : Type 0 where
  pub provider : String
  pub stage_name : String
  pub allowed_tools : Option (List String)
  pub permissions : Permissions
  pub sandboxed : Bool

pub record StageDeps (Db W : Type 0) : Type 0 where
  pub now : W → ℕ
  pub aborted : W → Bool
  -- `crypto.randomUUID().slice(0, 8)`
  pub fresh_id : W → String
  -- `providers[name]`, and the type of the provider in the configuration.
  pub has_provider : String → Bool
  pub provider_type : String → Option String
  -- readLearned, readRecentHistory, formatPersistentContext of loadStageContext.
  pub learned : W → Option String
  pub history : W → Option String
  pub persistent_block : String → W → String
  -- loadSkillDefinition: the prompt and the tools.
  pub skill_prompt : String → Option String
  pub skill_tools : String → Option (List String)
  pub default_mode : Option PermissionMode
  pub environment : Equipment → Environment (Shared Db W)
  -- The sandbox of the stage.
  pub create_sandbox : String → W → W
  pub has_diffs : W → Bool
  pub apply : W → Result Void String × W
  pub discard : W → W
  -- Whether the user wants the changes applied.
  pub on_sandbox_review : Option (String → W → Bool × W)
  -- The messages of errors.
  pub policy_text : PolicyError → String
  pub context_text : ContextError → String
  pub agent_text : AgentError → String

abbrev pub auto_snapshot : String → String
auto_snapshot stage_name = "auto:before:" ⋯ stage_name

-- `a ?? b`
unfoldable pub mode_or : Option PermissionMode → Option PermissionMode → PermissionMode
mode_or (some m) other = m
mode_or none (some m) = m
mode_or none none = confirm

unfoldable pub is_sandbox : PermissionMode → Bool
is_sandbox sandbox = true
is_sandbox mode = false

unfoldable pub tools_or : Option (List String) → Option (List String) → Option (List String)
tools_or none other = other
tools_or (some tools) other = some tools

unfoldable pub iterations_or : Option ℕ → ℕ
iterations_or none = 50
iterations_or (some n) = n

-- `{ stageName, status: "failed", error, contextKeysWritten: [] }`
unfoldable pub failed_with : String → String → StageResult
unfolding not_run
failed_with stage_name error = record (not_run failed stage_name) { error = some error }

-- The instructions of the stage, with the persistent context.
unfoldable pub system_prompt_of :
    (stage_name : String)
    → (skill_prompt system_message : Option String) → (persistent : String) → String
system_prompt_of stage_name skill_prompt system_message persistent =
    let base : String = elim skill_prompt [
      | none ↦ "You are the \"" ⋯ stage_name ⋯ "\" stage in an AI pipeline."
      | some p ↦ p
    ] in
    let prompt : String = elim system_message [
      | none ↦ base
      | some m ↦ if m == "" then base else base ⋯ "\n\n--- Stage Instruction ---\n" ⋯ m
    ] in
    if persistent == "" then prompt else prompt ⋯ "\n\n--- Persistent Context ---\n" ⋯ persistent

unfoldable pub task_of : String → String
task_of block =
    if block == ""
    then "Complete your task."
    else "Complete your task based on the following context." ⋯ block

module _ {Db W : Type 0} (store : Config) (db : Database Db) (deps : StageDeps Db W) where
  unfoldable pub emit_all : List StageEvent → Shared Db W → Shared Db W
  emit_all events s = record s { events = s.events ++ events }

  -- The price of the usage; an unknown model costs nothing.
  unfoldable pub estimate_stage_cost :
      TokenUsage → (model : String) → (provider_type : Option String) → ℕ
  unfolding estimate_cost is_local_provider
  estimate_stage_cost usage model provider_type =
      let is_local : Bool = elim provider_type [ none ↦ false | some t ↦ is_local_provider t ] in
      elim (estimate_cost usage model is_local) [ none ↦ 0 | some c ↦ c ]

  -- The end of a sandbox: whether its changes were applied.
  unfoldable pub review_sandbox : (stage_name : String) → Shared Db W → Bool × Shared Db W
  unfolding emit_all
  review_sandbox stage_name s =
      if deps.has_diffs s.world
      then elim deps.on_sandbox_review [
        | none ↦ (false, record s { world = deps.discard s.world })
        | some ask ↦
            let (wanted, w) = ask stage_name s.world in
            if wanted
            then (let (applied, w') = deps.apply w in
                let s' : Shared Db W = record s { world = w' } in
                elim applied [
                  | ok done ↦ (true, s')
                  | err e ↦ (
                    false,
                    emit_all (stage_warning stage_name ("Sandbox apply failed: " ⋯ e) ∷ []) s',
                  )
                ])
            else (false, record s { world = deps.discard w })
      ]
      else (false, record s { world = deps.discard s.world })

  module _ (stage_name : String) (stage_def : StageDefinition) where
    abbrev in_sandbox : Bool
    in_sandbox = is_sandbox (mode_or stage_def.permissions deps.default_mode)

    -- An error before or after the agent loop.
    unfoldable pub fail_stage : String → List StageEvent → Shared Db W → StageResult × Shared Db W
    unfolding failed_with emit_all
    fail_stage error more s =
        (failed_with stage_name error, emit_all (stage_error stage_name error ∷ more) s)

    -- After the costs: the output is written, the sandbox is reviewed, and the stage has succeeded.
    unfoldable pub complete_stage :
        AgentLoopResult → (cost : ℕ) → Shared Db W → StageResult × Shared Db W
    unfolding emit_all
    complete_stage agent cost s =
        let (written, d) =
          write_stage_output store db (deps.now s.world) stage_name stage_def.context
            agent.final_content s.db in
        let note : List StageEvent = elim written [
          | ok key ↦ context_write stage_name key ∷ []
          | err (denied e) ↦ policy_violation stage_name "write_access" (deps.policy_text e) ∷ []
          | err (not_stored e) ↦
              policy_violation stage_name "write_access" (deps.context_text e) ∷ []
        ] in
        let s₁ : Shared Db W = emit_all note (record s { db = d }) in
        let (applied, s₂) = review_sandbox stage_name s₁ in
        let s₃ : Shared Db W = if in_sandbox then s₂ else s₁ in
        let result : StageResult = record {
          stage_name = stage_name;
          status = success;
          output = some agent.final_content;
          usage = some agent.total_usage;
          cost = some cost;
          breakdown = some agent.breakdown;
          error = none;
          context_keys_written = elim written [ ok key ↦ key ∷ [] | err e ↦ [] ];
          stop_reason = some agent.stop_reason;
          work_summary = some agent.work_summary;
          sandbox_applied = if in_sandbox then some applied else none;
        } in
        (result, emit_all (stage_complete result ∷ []) s₃)

    -- After the agent loop: its cost is recorded.
    unfoldable pub charge_stage : AgentLoopResult → Shared Db W → StageResult × Shared Db W
    unfolding complete_stage failed_with emit_all estimate_stage_cost
    charge_stage agent s =
        let cost =
          estimate_stage_cost agent.total_usage stage_def.model
            (deps.provider_type stage_def.provider) in
        let (policy, outcome) = Engine.record_cost cost stage_name s.policy in
        let s' : Shared Db W = record s { policy = policy } in
        elim outcome [
          | ok done ↦ complete_stage agent cost s'
          | err e ↦
              let error = deps.policy_text e in
              (
                record (failed_with stage_name error) {
                  usage = some agent.total_usage;
                  cost = some cost;
                },
                emit_all
                    (stage_error stage_name error
                      ∷ policy_violation stage_name "cost_limit" error
                      ∷ [])
                    s',
              )
        ]

    -- What the agent loop returned.
    unfoldable pub finish_agent :
        Result AgentLoopResult AgentError → Shared Db W → StageResult × Shared Db W
    unfolding fail_stage charge_stage
    finish_agent (err e) s = fail_stage (deps.agent_text e) [] s
    finish_agent (ok agent) s = charge_stage agent s

    unfoldable pub equipment_of : Equipment
    unfolding tools_or
    equipment_of = record {
      provider = stage_def.provider;
      stage_name = stage_name;
      allowed_tools = tools_or stage_def.allowed_tools (deps.skill_tools stage_def.skill);
      permissions = stage_def.context;
      sandboxed = in_sandbox;
    }

    -- Only an orchestrator is given the messages that the user sends during the run.
    unfoldable pub environment_of : Environment (Shared Db W)
    unfolding equipment_of
    environment_of = record (deps.environment equipment_of) { injected = none }

    -- The request and the bounds of the agent loop.
    unfoldable pub loop_config_of : (block persistent : String) → AgentLoopConfig
    unfolding environment_of iterations_or system_prompt_of task_of
    loop_config_of block persistent =
        let task : Message = record {
          role = user;
          content = task_of block;
          tool_call_id = none;
          tool_calls = [];
        } in
        let request : ChatRequest = record {
          model = stage_def.model;
          messages = task ∷ [];
          system_prompt = some (
              system_prompt_of stage_name (deps.skill_prompt stage_def.skill)
                stage_def.system_message persistent);
          tools = environment_of.definitions;
          tool_choice = none;
        } in
        record {
          request = request;
          max_iterations = iterations_or stage_def.max_iterations;
          initial_context_bytes = some (len block);
          initial_persistent_context_bytes = some (len persistent);
          require_tool_call_on_first_iteration = false;
        }

    -- The sandbox, the request and the agent loop, for a block of context.
    unfoldable pub run_stage : (block : String) → Shared Db W → StageResult × Shared Db W
    unfolding finish_agent environment_of loop_config_of
    run_stage block s =
        let w : W = if in_sandbox then deps.create_sandbox stage_name s.world else s.world in
        let (result, left, s') =
          run_agent_loop environment_of (loop_config_of block (deps.persistent_block stage_name w))
            (record s { world = w }) in
        finish_agent result s'

    -- The payload, or the error of the store.
    unfoldable pub give_context :
        Result (Payload × List StageEvent) ContextError → Shared Db W → StageResult × Shared Db W
    unfolding run_stage fail_stage emit_all
    give_context (err e) s = fail_stage (deps.context_text e) [] s
    give_context (ok (payload, reads)) s =
        run_stage (format_context_for_prompt payload stage_def.context.eager) (emit_all reads s)

    -- The request has passed the rate limit: snapshot, persistent context, payload.
    unfoldable pub prepare_stage : Shared Db W → StageResult × Shared Db W
    unfolding give_context
    prepare_stage s =
        let now = deps.now s.world in
        let saved =
          Store.save_snapshot store db now (deps.fresh_id s.world) (auto_snapshot stage_name)
            "system" (some ("Auto-snapshot before stage \"" ⋯ stage_name ⋯ "\"")) s.db in
        let seeded =
          seed_persistent_lazy_context store db now stage_name (deps.learned s.world)
            (deps.history s.world) saved.1 in
        let s' : Shared Db W = record s { db = seeded } in
        give_context (build_context_payload store db now stage_name stage_def.context seeded) s'

    unfoldable pub execute_stage : Shared Db W → StageResult × Shared Db W
    unfolding prepare_stage fail_stage emit_all failed_with not_run
    execute_stage s =
        if deps.aborted s.world
        then (not_run skipped stage_name, s)
        else elim (deps.has_provider stage_def.provider) [
          | false ↦
              (failed_with stage_name ("Provider \"" ⋯ stage_def.provider ⋯ "\" not found"), s)
          | true ↦
              let started = emit_all (stage_start stage_name stage_def.model ∷ []) s in
              let (policy, outcome) =
                Engine.try_consume_rate (deps.now s.world) stage_name s.policy in
              let s' : Shared Db W = record started { policy = policy } in
              elim outcome [
                | ok done ↦ prepare_stage s'
                | err e ↦
                    let error = deps.policy_text e in
                    fail_stage error (policy_violation stage_name "rate_limit" error ∷ []) s'
              ]
        ]
