-- ===== src/Sandbox/Manager/Text.antt =====
-- src/core/sandbox/sandbox-manager.ts, `formatDiff`: the differences as lines for a human.
use open_thinking.Base.{
  String, Option, none, some, List, [], ◌∷◌, ◌++◌, ◌==◌, if◌then◌else◌, length, map,
}
use open_thinking.Base.Texts.{split, join, show}
use open_thinking.Agent.Text.{◌⋯◌, newline}
use open_thinking.Sandbox.Manager.{SandboxFileDiff, added, modified, deleted}

-- `oldLine === newLine`, where a line past the end is undefined.
unfoldable pub line_pair : Option String → Option String → List String
line_pair none none = " " ∷ []
line_pair (some old) none = ("-" ⋯ old) ∷ []
line_pair none (some new) = ("+" ⋯ new) ∷ []
line_pair (some old) (some new) =
    if old == new then (" " ⋯ old) ∷ [] else ("-" ⋯ old) ∷ ("+" ⋯ new) ∷ []

-- The loop over the lines of both texts, up to the longer one.
unfoldable pub line_pairs : List String → List String → List String
unfolding line_pair
line_pairs [] [] = []
line_pairs (old ∷ olds) [] = line_pair (some old) none ++ line_pairs olds []
line_pairs [] (new ∷ news) = line_pair none (some new) ++ line_pairs [] news
line_pairs (old ∷ olds) (new ∷ news) = line_pair (some old) (some new) ++ line_pairs olds news

-- `(text ?? "").split("\n")`
unfoldable pub text_lines : Option String → List String
text_lines none = split newline ""
text_lines (some text) = split newline text

unfoldable pub format_file : SandboxFileDiff → List String
unfolding text_lines line_pairs
format_file d =
    let old_lines = text_lines d.original in
    let new_lines = text_lines d.modified in
    let old_count = show (length old_lines) in
    let new_count = show (length new_lines) in
    let old_name = "--- a/" ⋯ d.path in
    let new_name = "+++ b/" ⋯ d.path in
    let body : List String = elim d.status [
      | added ↦
          "--- /dev/null"
          ∷ new_name
          ∷ ("@@ -0,0 +1," ⋯ new_count ⋯ " @@")
          ∷ map (λ l. "+" ⋯ l) new_lines
      | deleted ↦
          old_name
          ∷ "+++ /dev/null"
          ∷ ("@@ -1," ⋯ old_count ⋯ " +0,0 @@")
          ∷ map (λ l. "-" ⋯ l) old_lines
      | modified ↦
          old_name
          ∷ new_name
          ∷ ("@@ -1," ⋯ old_count ⋯ " +1," ⋯ new_count ⋯ " @@")
          ∷ line_pairs old_lines new_lines
    ] in
    body ++ "" ∷ []

unfoldable pub format_files : List SandboxFileDiff → List String
unfolding format_file
format_files [] = []
format_files (d ∷ ds) = format_file d ++ format_files ds

unfoldable pub format_diff : List SandboxFileDiff → String
unfolding format_files
format_diff [] = "No changes."
format_diff (d ∷ ds) = join "\n" (format_files (d ∷ ds))
