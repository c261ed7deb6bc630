-- ===== src/Pipeline/Stage.antt =====
-- src/pipeline/executor/stage-executor.ts and src/shared/types.ts: what a stage returns, and the tests
-- on it. Durations and the texts that only the screen shows are left out; money is in nano-dollars.
use Prim.Native.Char.{code}
use Prim.Native.Nat.{min}
use open_thinking.Base.{
  ℕ, String, ◌+◌, ◌*◌, ◌^◌, Bool, true, false, ◌&&◌, ◌||◌, not, Option, none, some, List, [], ◌∷◌,
  ◌++◌, eqb, leb, if◌then◌else◌, is_empty, any,
}
use open_thinking.Base.Texts.{contains, includes, split}
use open_thinking.Types.{TokenUsage}
use open_thinking.Chat.{TokenBreakdown}
use open_thinking.Agent.Memory.{WorkSummary}
use open_thinking.Agent.Loop.{StopReason}

pub data StageStatus : Type 0 where
  pending running success failed skipped cancelled : StageStatus

pub record StageResult : Type 0 where
  pub stage_name : String
  pub status : StageStatus
  pub output : Option String
  pub usage : Option TokenUsage
  pub cost : Option ℕ
  pub breakdown : Option TokenBreakdown
  pub error : Option String
  pub context_keys_written : List String
  pub stop_reason : Option StopReason
  pub work_summary : Option WorkSummary
  pub sandbox_applied : Option Bool

pub data RunStatus : Type 0 where
  run_success run_failed run_partial : RunStatus

pub record PipelineRunResult : Type 0 where
  pub pipeline_name : String
  pub run_id : String
  pub status : RunStatus
  pub stages : List StageResult
  pub total_cost : ℕ
  pub total_tokens : TokenUsage

-- `{ stageName, status, durationMs: 0, contextKeysWritten: [] }`
unfoldable pub not_run : StageStatus → String → StageResult
not_run status name = record {
  stage_name = name;
  status = status;
  output = none;
  usage = none;
  cost = none;
  breakdown = none;
  error = none;
  context_keys_written = [];
  stop_reason = none;
  work_summary = none;
  sandbox_applied = none;
}

unfoldable pub is_failed : StageStatus → Bool
is_failed failed = true
is_failed status = false

unfoldable pub is_success : StageStatus → Bool
is_success success = true
is_success status = false

unfoldable pub is_rate_limit_failure : StageResult → Bool
unfolding includes
is_rate_limit_failure result = elim result.error [
  | none ↦ false
  | some e ↦ includes e "RATE_LIMIT" || includes e "429"
]

abbrev pub retry_base_delay_ms : ℕ
retry_base_delay_ms = 1000

abbrev pub retry_max_delay_ms : ℕ
retry_max_delay_ms = 30_000

-- `jitter` is the random part, below the base delay.
unfoldable pub retry_delay : (attempt jitter : ℕ) → ℕ
retry_delay attempt jitter = min (retry_base_delay_ms * 2 ^ attempt + jitter) retry_max_delay_ms

-- `set.add` of every element, in order.
unfoldable pub add_all : List String → List String → List String
add_all set [] = set
add_all set (x ∷ xs) = add_all (if contains set x then set else set ++ x ∷ []) xs

unfoldable pub merge_work_summaries : List (Option WorkSummary) → WorkSummary → WorkSummary
unfolding add_all
merge_work_summaries [] merged = merged
merge_work_summaries (none ∷ summaries) merged = merge_work_summaries summaries merged
merge_work_summaries (some summary ∷ summaries) merged = merge_work_summaries summaries (record {
  files_written = add_all merged.files_written summary.files_written;
  commands_run = add_all merged.commands_run summary.commands_run;
})

unfoldable pub has_recorded_work : WorkSummary → Bool
has_recorded_work summary =
    not (is_empty summary.files_written) || not (is_empty summary.commands_run)

-- A character of `\w`.
abbrev is_word : ℕ → Bool
is_word c =
    leb b'a' c && leb c b'z'
    || (leb b'A' c && leb c b'Z' || (leb b'0' c && leb c b'9' || eqb c b'_'))

-- Every character outside `\w` becomes a blank: a text matches `\b(one|two)\b` when one of the words
-- stands between blanks.
unfoldable pub blank_out : String → String
blank_out String.[] = ""
blank_out (String.◌∷◌ c s) = String.◌∷◌ (if is_word (code c) then c else " ") (blank_out s)

unfoldable pub has_word : List String → String → Bool
unfolding blank_out
has_word words text = any (contains words) (split b' ' (blank_out text))

abbrev action_words : List String
action_words =
    "crea" ∷ "crear" ∷ "creame" ∷ "genera" ∷ "generar" ∷ "haz" ∷ "hacer" ∷ "escribe" ∷ "escribir"
    ∷ "guarda" ∷ "guardar" ∷ "modifica" ∷ "modificar" ∷ "edita" ∷ "editar" ∷ "actualiza"
    ∷ "actualizar" ∷ "cambia" ∷ "cambiar" ∷ "corrige" ∷ "corregir" ∷ "arregla" ∷ "arreglar"
    ∷ "create" ∷ "generate" ∷ "write" ∷ "save" ∷ "modify" ∷ "edit" ∷ "update" ∷ "fix" ∷ []

abbrev artifact_words : List String
artifact_words =
    "archivo" ∷ "fichero" ∷ "documento" ∷ "csv" ∷ "json" ∷ "txt" ∷ "md" ∷ "markdown" ∷ "html"
    ∷ "css" ∷ "js" ∷ "jsx" ∷ "ts" ∷ "tsx" ∷ "py" ∷ "xml" ∷ "yaml" ∷ "yml" ∷ "sql" ∷ "xlsx" ∷ "excel"
    ∷ "readme" ∷ "package" ∷ []

-- `normalize` is `normalizePromptText`, on the Unicode tables of the runtime.
module _ (normalize : String → String) where
  unfoldable pub prompt_requires_file_write : String → Bool
  unfolding has_word
  prompt_requires_file_write prompt =
      let text = normalize prompt in has_word action_words text && has_word artifact_words text

  -- The error of a run that did not do what was asked.
  unfoldable pub validate_orchestrated_work : String → WorkSummary → Option String
  unfolding prompt_requires_file_write has_recorded_work
  validate_orchestrated_work input_prompt summary =
      if prompt_requires_file_write input_prompt && is_empty summary.files_written
      then some
          "The user requested creating or modifying a file, but no agent wrote any file. The pipeline produced text only instead of creating the requested artifact in the workspace."
      else if not (has_recorded_work summary)
      then some
          "Orchestrated run finished without any recorded work. At least one delegated agent must create or modify files, or run a command that performs the requested project work."
      else none
