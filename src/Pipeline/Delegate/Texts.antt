-- ===== src/Pipeline/Delegate/Texts.antt =====
-- src/tools/delegate-tool.ts, buildContextBlock and buildDelegateSummary: what a delegated agent reads,
-- and what its orchestrator reads of it. Sizes are in bytes of UTF-8, as
-- `TextEncoder` counts them; the preview is cut by characters.
use Prim.Native.String.{len}
use open_thinking.Base.{
  ℕ, String, ◌-◌, Bool, none, some, List, [], ◌∷◌, ◌++◌, ltb, if◌then◌else◌, map, keep, is_empty,
  length, take,
}
use open_thinking.Base.Texts.{join, show, slice_to, units}
use open_thinking.Result.{Result, ok, err}
use open_thinking.Errors.{ContextError}
use open_thinking.Agent.Text.{◌⋯◌, to_fixed_1}
use open_thinking.Agent.Memory.{WorkSummary}
use open_thinking.Policy.Access.{Permissions, check_read_access, filter_readable_keys}
use open_thinking.Context.Store.{ContextEntry}
use open_thinking.Pipeline.Payload.{Payload, find_entry, is_allowed, inline_text, is_small}

-- The entries that the agent may read, in the order of the keys.
unfoldable pub context_items :
    (stage_name : String) → Permissions → List ContextEntry → List String → Payload
unfolding find_entry is_allowed
context_items stage_name permissions entries [] = []
context_items stage_name permissions entries (key ∷ keys) =
    let rest = context_items stage_name permissions entries keys in
    elim (find_entry key entries) [
      | none ↦ rest
      | some entry ↦
          if is_allowed (check_read_access stage_name permissions key)
          then (key, entry.value) ∷ rest
          else rest
    ]

unfoldable pub size_label : ℕ → String
unfolding to_fixed_1
size_label size = if ltb size 1024 then show size ⋯ "B" else to_fixed_1 size 1024 ⋯ "KB"

unfoldable pub item_line : String × String → String
unfolding is_small size_label
item_line (key, value) =
    if is_small (key, value)
    then "  - " ⋯ key ⋯ " (" ⋯ show (len value) ⋯ "B, inlined above)"
    else "  - " ⋯ key ⋯ " (" ⋯ size_label (len value) ⋯ ", fetch with get_context(\"" ⋯ key ⋯ "\"))"

unfoldable pub format_block : Payload → (eager : Bool) → String
unfolding inline_text is_small item_line
format_block items eager =
    let small = map inline_text (keep is_small items) in
    let inlined = "--- Context (inlined) ---\n" ⋯ join "\n\n" small ⋯ "\n--- End Context ---" in
    let index =
      "--- Available context keys ---\n" ⋯ join "\n" (map item_line items) ⋯ "\n--- End ---" in
    if is_empty items
    then ""
    else if eager
    then "--- Context ---\n" ⋯ join "\n\n" (map inline_text items) ⋯ "\n--- End Context ---"
    else join "\n\n" (if is_empty small then index ∷ [] else inlined ∷ index ∷ [])

unfoldable pub build_context_block :
    (stage_name : String) → Permissions → Result (List ContextEntry) ContextError → String
unfolding context_items format_block
build_context_block stage_name permissions (err e) = ""
build_context_block stage_name permissions (ok entries) =
    format_block
      (context_items stage_name permissions entries
        (filter_readable_keys permissions (map (λ e. e.key) entries)))
      permissions.eager

unfoldable pub files_line : List String → List String
files_line files =
    if is_empty files
    then []
    else if ltb 5 (length files)
    then ("Files written: " ⋯ join ", " (take 5 files) ⋯ " (+" ⋯ show (length files - 5) ⋯ " more)")
      ∷ []
    else ("Files written: " ⋯ join ", " files) ∷ []

unfoldable pub work_lines : WorkSummary → List String
unfolding files_line
work_lines work =
    if is_empty work.files_written
    then (if is_empty work.commands_run
        then "No files were written and no commands were run. This is not a completed implementation for a task that should create or modify workspace artifacts."
          ∷ []
        else ("Commands run: " ⋯ show (length work.commands_run)) ∷ [])
    else files_line work.files_written
      ++ (if is_empty work.commands_run
          then []
          else ("Commands run: " ⋯ show (length work.commands_run)) ∷ [])

unfoldable pub build_delegate_summary :
    (agent_name output_key output : String) → WorkSummary → String
unfolding work_lines size_label units
build_delegate_summary agent_name output_key output work =
    let preview = if ltb 200 (units output) then slice_to 200 output ⋯ "…" else output in
    join "\n" (
      ("Agent \"" ⋯ agent_name ⋯ "\" completed.")
      ∷ ("Full output: "
          ⋯ size_label (len output)
          ⋯ ", stored in context key \""
          ⋯ output_key
          ⋯ "\".")
      ∷ ("Use get_context(\"" ⋯ output_key ⋯ "\") to fetch the full body if you need it.")
      ∷ (work_lines work ++ ("" ∷ "--- Output preview ---" ∷ preview ∷ [])))
