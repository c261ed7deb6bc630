-- ===== src/Pipeline/Orchestrate/State.antt =====
-- src/pipeline/executor/stage-executor.ts, executeStageWithDelegateTool: its variables `delegated` and
-- `delegatedWorkSummary`, which stand beside the state that the stages share, and its texts.
use open_thinking.Base.{ℕ, String, Bool, false, Option, none, some, [], ◌∷◌, ◌==◌, if◌then◌else◌}
use open_thinking.Agent.Text.{◌⋯◌}
use open_thinking.Agent.Memory.{WorkSummary}
use open_thinking.Pipeline.Stage.{StageResult, merge_work_summaries}
use open_thinking.Pipeline.Payload.{Payload}
use open_thinking.Pipeline.Execute.{Shared}

pub record Orchestration (Db W : Type 0) : Type 0 where
  pub shared : Shared Db W
  pub delegated : Bool
  pub work : WorkSummary

abbrev pub no_work : WorkSummary
no_work = record { files_written = []; commands_run = [] }

-- `mergeWorkSummaries(first, second)`
unfoldable pub merged_work : WorkSummary → Option WorkSummary → WorkSummary
unfolding merge_work_summaries
merged_work first second = merge_work_summaries (some first ∷ second ∷ []) no_work

-- The handler of `delegate:complete`.
unfoldable pub note_completed : WorkSummary → Option StageResult → WorkSummary
unfolding merged_work
note_completed work none = work
note_completed work (some result) = merged_work work result.work_summary

-- `contextResult.value["input.prompt"] ?? ""`
unfoldable pub input_prompt : Payload → String
input_prompt [] = ""
input_prompt ((key, value) ∷ payload) =
    let rest = input_prompt payload in if key == "input.prompt" then value else rest

unfoldable pub orchestrator_iterations : Option ℕ → ℕ
orchestrator_iterations none = 100
orchestrator_iterations (some n) = n

abbrev must_delegate : String
must_delegate =
    "You must delegate the work to one of the available agents before you can conclude.\n\n"

unfoldable pub orchestrator_task : String → String
orchestrator_task block =
    if block == ""
    then must_delegate ⋯ "Complete your task."
    else must_delegate ⋯ "Complete your task based on the following context." ⋯ block

unfoldable pub orchestrator_prompt :
    (stage_name : String)
    → (skill_prompt system_message : Option String) → (persistent : String) → String
orchestrator_prompt stage_name skill_prompt system_message persistent =
    let base : String = elim skill_prompt [
      | none ↦ "You are the \"" ⋯ stage_name ⋯ "\" orchestrator in an AI pipeline."
      | some p ↦ p
    ] in
    let prompt : String = elim system_message [
      | none ↦ base
      | some m ↦ if m == "" then base else base ⋯ "\n\n--- Stage Instruction ---\n" ⋯ m
    ] in
    if persistent == "" then prompt else prompt ⋯ "\n\n--- Persistent Context ---\n" ⋯ persistent

abbrev pub undelegated : String
undelegated =
    "Orchestrator finished without delegating any task. Ensure the model supports tool calling and that the orchestrator skill was loaded."

module _ {Db W : Type 0} where
  -- A call that sees the shared state only.
  unfoldable pub on_shared :
      {A : Type 0} → (Shared Db W → A × Shared Db W) → Orchestration Db W → A × Orchestration Db W
  on_shared call o = let (a, s) = call o.shared in (a, record o { shared = s })

  unfoldable pub start_orchestration : Shared Db W → Orchestration Db W
  start_orchestration s = record { shared = s; delegated = false; work = no_work }
