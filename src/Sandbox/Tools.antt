-- ===== src/Sandbox/Tools.antt =====
-- src/core/sandbox/sandbox-tools.ts: `safePath`, and the tools that read and write a file. What
-- `node:path`, the text encoder and the JSON arguments give is a parameter; a tool returns `none` when
-- it throws.

pub mod Session
use open_thinking.Base.{
  ℕ, String, ◌+◌, ◌-◌, Bool, true, false, ◌||◌, not, Option, none, some, List, [], ◌∷◌, ◌++◌, ◌==◌,
  ltb, leb, if◌then◌else◌, length, take, drop,
}
use open_thinking.Base.Texts.{starts_with, split, join, slice_to, show, units}
use open_thinking.Result.{Result, ok, err}
use open_thinking.Agent.Text.{◌⋯◌, Args, text_arg, has_ink, newline}
use open_thinking.Sandbox.Files.{Place, sandbox_dir, working_dir, FileSystem}
use open_thinking.Sandbox.Manager.{SandboxState, resolve_read_path, resolve_write_path}

pub record Paths : Type 0 where
  pub resolve : String → String → String
  pub relative : String → String → String

abbrev pub max_file_size : ℕ
max_file_size = 32_768

abbrev pub read_file_max_lines : ℕ
read_file_max_lines = 1500

module _ (paths : Paths) (working_dir_path : String) where
  -- `none` for `null`.
  unfoldable pub safe_path : String → Option String
  unfolding starts_with
  safe_path file_path =
      let resolved = paths.resolve working_dir_path file_path in
      let rel = paths.relative working_dir_path resolved in
      if starts_with rel ".." || not (paths.resolve working_dir_path rel == resolved)
      then none
      else some resolved

  -- The path below the working directory, of a path that is safe.
  unfoldable pub safe_relative : String → Option String
  unfolding safe_path
  safe_relative file_path = elim (safe_path file_path) [
    | none ↦ none
    | some checked ↦ some (paths.relative working_dir_path checked)
  ]

  -- `typeof args.path !== "string" || args.path.trim().length === 0`
  unfoldable pub path_arg : Args → Option String
  unfolding text_arg has_ink
  path_arg args = elim (text_arg "path" args.texts) [
    | none ↦ none
    | some path ↦ if has_ink path then some path else none
  ]

  abbrev pub blocked : String → String
  blocked path = "Path traversal blocked: " ⋯ path

  module _ {Fs : Type 0} (fs : FileSystem Fs) where
    unfoldable pub write_content_to :
        String
        → String
        → String
        → SandboxState
        → Fs
        → Option (Result String String × (SandboxState × Fs))
    unfolding resolve_write_path
    write_content_to file_path rel content s d = elim (resolve_write_path fs rel s d) [
      | none ↦ none
      | some (s', d₁) ↦ elim (fs.write sandbox_dir rel content d₁) [
        | none ↦ none
        | some d₂ ↦
            some
              (ok ("[sandbox] Wrote " ⋯ show (units content) ⋯ " bytes to " ⋯ file_path), (s', d₂))
      ]
    ]

    unfoldable pub write_file :
        Args → SandboxState → Fs → Option (Result String String × (SandboxState × Fs))
    unfolding path_arg safe_relative write_content_to
    write_file args s d = elim (path_arg args) [
      | none ↦ some (err "write_file requires a non-empty string 'path'", (s, d))
      | some path ↦ elim (text_arg "content" args.texts) [
        | none ↦ some (err "write_file requires a string 'content'", (s, d))
        | some content ↦ elim (safe_relative path) [
          | none ↦ some (err (blocked path), (s, d))
          | some rel ↦ write_content_to path rel content s d
        ]
      ]
    ]

    module _ (utf8_size : String → ℕ) where
      -- The lines from `offset` on, at most `limit` of them, and the notes on what is left out.
      unfoldable pub excerpt : (offset limit : ℕ) → String → String
      excerpt offset limit raw =
          let lines = split newline raw in
          let total_lines = length lines in
          let start_idx = offset - 1 in
          let end_idx =
            if leb (start_idx + limit) total_lines then start_idx + limit else total_lines in
          let whole = join "\n" (take (end_idx - start_idx) (drop start_idx lines)) in
          let byte_truncated = ltb max_file_size (utf8_size whole) in
          let body = if byte_truncated then slice_to max_file_size whole else whole in
          let shown =
            "Showing lines " ⋯ show offset ⋯ "-" ⋯ show end_idx ⋯ " of " ⋯ show total_lines ⋯ "." in
          let notes : List String =
            (if ltb 1 offset || ltb end_idx total_lines then shown ∷ [] else [])
            ++ (if byte_truncated then "Output truncated at 32KB." ∷ [] else []) in
          if leb 1 (length notes) then body ⋯ "\n\n[" ⋯ join " " notes ⋯ "]" else body

      -- `Math.max(1, offset)`, with 1 for an offset that is no number.
      unfoldable pub first_of : Option ℕ → ℕ
      first_of none = 1
      first_of (some n) = if leb 1 n then n else 1

      unfoldable pub most_of : Option ℕ → ℕ
      most_of none = read_file_max_lines
      most_of (some n) =
          let least = if leb 1 n then n else 1 in
          if leb least read_file_max_lines then least else read_file_max_lines

      unfoldable pub read_place :
          String → (offset limit : Option ℕ) → Place × String → Fs → Result String String
      unfolding excerpt first_of most_of
      read_place file_path offset limit (place, rel) d =
          if not (fs.exists place rel d)
          then err ("File not found: " ⋯ file_path)
          else if fs.is_directory place rel d
          then err ("Path is a directory: " ⋯ file_path)
          else elim (fs.read place rel d) [
            | none ↦ err ("Failed to read " ⋯ file_path)
            | some raw ↦ ok (excerpt (first_of offset) (most_of limit) raw)
          ]

      unfoldable pub read_file : Args → (offset limit : Option ℕ) → Fs → Result String String
      unfolding path_arg safe_relative resolve_read_path read_place
      read_file args offset limit d = elim (path_arg args) [
        | none ↦ err "read_file requires a non-empty string 'path'"
        | some path ↦ elim (safe_relative path) [
          | none ↦ err (blocked path)
          | some rel ↦ elim (resolve_read_path fs rel d) [
            | none ↦ err ("File deleted in sandbox: " ⋯ rel)
            | some found ↦ read_place path offset limit found d
          ]
        ]
      ]
