-- ===== src/Permission/Risk.antt =====
-- src/core/permissions/risk-classifier.ts. An argument that is no text counts as missing; `resolve` of
-- `node:path` is a parameter.
pub mod Laws
use Prim.Native.Char.{code}
use Prim.Native.String
use open_thinking.Base.{
  ℕ, String, Bool, true, false, ◌||◌, not, Option, none, some, List, [], ◌∷◌, ◌++◌, ◌==◌, ltb, eqb,
  any, if◌then◌else◌,
}
use open_thinking.Base.Texts.{starts_with, slice_to, units}
use open_thinking.Base.Regex.{
  Atom, one, many, boundary, finish, Sequence, is_space, is_inline, literal, test_regex,
}
use open_thinking.Agent.Text.{◌⋯◌, Args, text_arg}
use open_thinking.Permission.Engine.{RiskLevel, safe, moderate, dangerous, Risk}

-- `\bword\b`
unfoldable pub whole_word : String → Sequence
unfolding literal
whole_word word = boundary ∷ (literal word ++ boundary ∷ [])

abbrev space : Atom
space = one is_space

abbrev spaces : Atom
spaces = many is_space

abbrev anything : Atom
anything = many is_inline

-- `\bcurl\b.*\|\s*` with the name of a shell after it.
unfoldable pub piped_to : String → Sequence
unfolding literal
piped_to shell =
    boundary ∷ (literal "curl" ++ (boundary ∷ anything ∷ one (eqb b'|') ∷ spaces ∷ literal shell))

-- DANGEROUS_COMMAND_PATTERNS
unfoldable pub dangerous_command_patterns : List Sequence
unfolding whole_word piped_to literal
dangerous_command_patterns =
    (boundary ∷ (literal "rm" ++ space ∷ []))
    ∷ (boundary ∷ (literal "rm" ++ finish ∷ []))
    ∷ whole_word "rmdir"
    ∷ whole_word "sudo"
    ∷ whole_word "chmod"
    ∷ whole_word "chown"
    ∷ whole_word "mkfs"
    ∷ whole_word "dd"
    ∷ (boundary ∷ one (eqb b'>') ∷ spaces ∷ one (eqb b'/') ∷ [])
    ∷ (boundary
        ∷ (literal "git"
            ++ (space ∷ spaces ∷ (literal "push" ++ (boundary ∷ anything ∷ literal "--force")))))
    ∷ (boundary
        ∷ (literal "git"
            ++ (space ∷ spaces ∷ (literal "reset" ++ (space ∷ spaces ∷ literal "--hard")))))
    ∷ (boundary ∷ (literal "git" ++ (space ∷ spaces ∷ (literal "clean" ++ boundary ∷ []))))
    ∷ whole_word "kill"
    ∷ whole_word "pkill"
    ∷ whole_word "reboot"
    ∷ whole_word "shutdown"
    ∷ piped_to "bash"
    ∷ piped_to "sh"
    ∷ piped_to "zsh"
    ∷ []

-- SAFE_COMMAND_PREFIXES
abbrev pub safe_command_prefixes : List String
safe_command_prefixes =
    "ls" ∷ "cat" ∷ "head" ∷ "tail" ∷ "grep" ∷ "rg" ∷ "find" ∷ "wc" ∷ "echo" ∷ "pwd" ∷ "which"
    ∷ "env" ∷ "printenv" ∷ "date" ∷ "whoami" ∷ "uname" ∷ "node --version" ∷ "bun --version"
    ∷ "npm --version" ∷ "git status" ∷ "git log" ∷ "git diff" ∷ "git branch" ∷ "git show"
    ∷ "git blame" ∷ []

-- `s.trimStart()`
unfoldable pub trim_start : String → String
trim_start String.[] = String.[]
trim_start (String.◌∷◌ c s) =
    let rest = trim_start s in if is_space (code c) then rest else String.◌∷◌ c s

-- `s.trimEnd()`: a character stays if it is no space or something after it stays.
unfoldable pub trim_end : String → String
trim_end String.[] = String.[]
trim_end (String.◌∷◌ c s) = elim (trim_end s) [
  | String.[] ↦ if is_space (code c) then String.[] else String.◌∷◌ c String.[]
  | String.◌∷◌ d t ↦ String.◌∷◌ c (String.◌∷◌ d t)
]

unfoldable pub trim : String → String
unfolding trim_start trim_end
trim s = trim_end (trim_start s)

unfoldable pub truncate_command : String → String
truncate_command command = if ltb 80 (units command) then slice_to 77 command ⋯ "..." else command

-- `trimmed === prefix || trimmed.startsWith(`${prefix} `)`
unfoldable pub begins_with : String → String → Bool
unfolding starts_with
begins_with trimmed prefix = trimmed == prefix || starts_with trimmed (prefix ⋯ " ")

unfoldable pub command_risk : String → RiskLevel
unfolding test_regex begins_with dangerous_command_patterns
command_risk trimmed =
    if test_regex dangerous_command_patterns trimmed
    then dangerous
    else if any (begins_with trimmed) safe_command_prefixes
    then safe
    else moderate

unfoldable pub describe_command : String → RiskLevel → String
unfolding truncate_command
describe_command command dangerous = "run_command: " ⋯ truncate_command command ⋯ " (destructive)"
describe_command command risk = "run_command: " ⋯ truncate_command command

-- `String(args.key ?? "")`
unfoldable pub text_or_empty : String → Args → String
unfolding text_arg
text_or_empty key args = elim (text_arg key args.texts) [ none ↦ "" | some value ↦ value ]

-- `String(args.path ?? args.key ?? "")`
unfoldable pub read_subject : Args → String
unfolding text_arg text_or_empty
read_subject args = elim (text_arg "path" args.texts) [
  | none ↦ text_or_empty "key" args
  | some path ↦ path
]

module _ (resolve : String → String → String) (working_dir : String) where
  unfoldable pub write_risk : String → Risk
  unfolding starts_with
  write_risk path =
      let resolved = resolve working_dir path in
      if starts_with resolved (resolve working_dir "")
      then record { risk = moderate; subject = path; description = "write_file: " ⋯ path }
      else record {
        risk = dangerous;
        subject = path;
        description = "write_file: " ⋯ path ⋯ " (OUTSIDE workspace)";
      }

  unfoldable pub classify_tool_risk : String → Args → Risk
  unfolding read_subject text_or_empty write_risk command_risk trim describe_command
  classify_tool_risk tool args =
      if tool == "read_file"
        || (tool == "list_files" || (tool == "search_files" || tool == "get_context"))
      then record {
        risk = safe;
        subject = read_subject args;
        description = tool ⋯ ": " ⋯ read_subject args;
      }
      else if tool == "write_file"
      then write_risk (text_or_empty "path" args)
      else if tool == "run_command"
      then (let command = text_or_empty "command" args in
          let risk = command_risk (trim command) in
          record { risk = risk; subject = command; description = describe_command command risk })
      else record {
        risk = moderate;
        subject = tool;
        description = tool ⋯ ": " ⋯ slice_to 100 args.json;
      }
