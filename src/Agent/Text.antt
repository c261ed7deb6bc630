-- ===== src/Agent/Text.antt =====
-- src/pipeline/executor/agent-loop.ts, the texts that the loop hands to the model: truncated tool
-- output, the task with the working memory, and the summary of a tool call. A character is a code
-- point, and `len` is the number of UTF-8 bytes, as `TextEncoder` counts them.
pub mod Truncation
use Prim.Native.String
use Prim.Native.String.{len}
use open_thinking.Base.{
  ℕ, suc, String, ◌+◌, ◌-◌, ◌*◌, ◌/◌, ◌%◌, Bool, true, false, ◌&&◌, ◌||◌, not, Option, none, some,
  List, [], ◌∷◌, ◌++◌, ◌==◌, ltb, leb, if◌then◌else◌, is_empty, length, keep, take, drop,
}
use open_thinking.Base.Texts.{split, join, show, slice_to}

infixr 66 ◌⋯◌
-- The pieces of a template literal.
abbrev pub ◌⋯◌ : String → String → String
s ⋯ t = String.◌++◌ s t

abbrev pub newline : ℕ
newline = 10

abbrev pub tool_output_max_lines : ℕ
tool_output_max_lines = 2000

abbrev pub tool_output_max_bytes : ℕ
tool_output_max_bytes = 51200

-- `(n / unit).toFixed(1)`: rounded to tenths, a half upwards.
unfoldable pub to_fixed_1 : ℕ → ℕ → String
to_fixed_1 n unit =
    let tenths = (n * 10 + unit / 2) / unit in show (tenths / 10) ⋯ "." ⋯ show (tenths % 10)

unfoldable pub format_bytes : ℕ → String
unfolding to_fixed_1
format_bytes bytes =
    if ltb bytes 1024
    then show bytes ⋯ "B"
    else if ltb bytes 1_048_576
    then to_fixed_1 bytes 1024 ⋯ "KB"
    else to_fixed_1 bytes 1_048_576 ⋯ "MB"

-- A difference that may be negative, as the notice prints it.
unfoldable pub show_diff : ℕ → ℕ → String
show_diff a b = if leb b a then show (a - b) else "-" ⋯ show (b - a)

-- The notice between the head and the tail.
unfoldable pub truncation_notice : ℕ → ℕ → String
unfolding format_bytes show_diff
truncation_notice lines bytes =
    "\n\n[… truncated "
    ⋯ show_diff lines 300
    ⋯ " lines ("
    ⋯ format_bytes bytes
    ⋯ " total) — use read_file with offset/limit to see specific sections …]\n\n"

unfoldable pub truncate_tool_output : String → String
unfolding truncation_notice
truncate_tool_output content =
    let lines = split newline content in
    let head = join "\n" (take 200 lines) in
    let tail = join "\n" (drop (length lines - 100) lines) in
    if leb (length lines) tool_output_max_lines && leb (len content) tool_output_max_bytes
    then content
    else head ⋯ truncation_notice (length lines) (len content) ⋯ tail

-- The arguments of a tool call: what `JSON.parse` reads, printed back by `JSON.stringify`, and the
-- fields of it that are texts.
pub record Args : Type 0 where
  pub json : String
  pub texts : List (String × String)

-- `typeof args.key === "string"` with its value.
unfoldable pub text_arg : String → List (String × String) → Option String
text_arg key [] = none
text_arg key ((k, v) ∷ texts) = if k == key then some v else text_arg key texts

-- `s.length > n ? s.slice(0, n)… : s`
unfoldable pub preview : ℕ → String → String
preview n s = if ltb n (String.count s) then slice_to n s ⋯ "…" else s

unfoldable pub get_key_arg : String → Args → Option String
unfolding text_arg preview
get_key_arg tool_name args =
    if tool_name == "read_file" || (tool_name == "write_file" || tool_name == "list_files")
    then text_arg "path" args.texts
    else if tool_name == "run_command"
    then elim (text_arg "command" args.texts) [ none ↦ none | some c ↦ some (preview 60 c) ]
    else if tool_name == "search_files"
    then elim (text_arg "pattern" args.texts) [ none ↦ none | some p ↦ some ("\"" ⋯ p ⋯ "\"") ]
    else if tool_name == "delegate"
    then text_arg "agent" args.texts
    else none

-- `keyArg` is truthy: present and not empty.
unfoldable pub call_signature : String → Option String → String
call_signature tool_name none = tool_name
call_signature tool_name (some key) = if key == "" then tool_name else tool_name ⋯ "(" ⋯ key ⋯ ")"

abbrev is_blank : ℕ → Bool
is_blank c = leb c 32

-- `l.trim()` is not empty: some character is no white space (of ASCII).
unfoldable pub has_ink : String → Bool
has_ink String.[] = false
has_ink (String.◌∷◌ c s) = not (is_blank (Prim.Native.Char.code c)) || has_ink s

unfoldable pub first_line : String → String
unfolding split
first_line s = elim (split newline s) [ [] ↦ "" | line ∷ _ ↦ line ]

unfoldable pub summarize_tool_call : String → Args → Bool → String → String
unfolding get_key_arg call_signature has_ink first_line preview
summarize_tool_call tool_name args success result =
    let sig = call_signature tool_name (get_key_arg tool_name args) in
    let filled = show (length (keep has_ink (split newline result))) in
    if not success
    then sig ⋯ " → ERROR"
    else if tool_name == "read_file"
    then sig ⋯ " → " ⋯ show (length (split newline result)) ⋯ " lines"
    else if tool_name == "write_file"
    then sig ⋯ " → OK"
    else if tool_name == "list_files"
    then sig ⋯ " → " ⋯ filled ⋯ " items"
    else if tool_name == "run_command"
    then sig ⋯ " → " ⋯ preview 60 (first_line result)
    else if tool_name == "search_files"
    then sig ⋯ " → " ⋯ filled ⋯ " matches"
    else if tool_name == "delegate"
    then sig ⋯ " → " ⋯ preview 80 result
    else if tool_name == "scratchpad_write"
    then sig ⋯ " → saved"
    else sig ⋯ " → done"

pub record WorkingMemory : Type 0 where
  pub action_log : List String
  pub notes : String

-- `buildTaskMessage`: the content of the refreshed task.
unfoldable pub task_content : String → WorkingMemory → String
task_content original memory =
    let log = if is_empty memory.action_log then [] else "## Action History" ∷ memory.action_log in
    let notes = if memory.notes == "" then [] else "" ∷ "## Your Notes" ∷ memory.notes ∷ [] in
    if is_empty memory.action_log && memory.notes == ""
    then original
    else original
      ⋯ "\n\n--- Working Memory ---\n"
      ⋯ join "\n" (log ++ notes)
      ⋯ "\n--- End Working Memory ---"
