-- ===== src/Sandbox/Manager.antt =====
-- src/core/sandbox/sandbox-manager.ts. An operation takes the state and the file system, and returns
-- both with its result; `none` in place of a result is an exception. The order of `localeCompare` is a
-- parameter.
pub mod Text
pub mod Diffs
pub mod Laws
use open_thinking.Base.{
  ℕ, String, ◌+◌, Bool, true, false, Option, none, some, List, [], ◌∷◌, ◌++◌, ◌==◌, not, keep,
  if◌then◌else◌,
}
use open_thinking.Base.Texts.{contains}
use open_thinking.Sandbox.Files.{Place, sandbox_dir, working_dir, walk, FileSystem}

pub data DiffStatus : Type 0 where
  added modified deleted : DiffStatus

pub record SandboxFileDiff : Type 0 where
  pub path : String
  pub status : DiffStatus
  pub original : Option String
  pub modified : Option String

pub record SandboxState : Type 0 where
  pub id : String
  pub written_files : List String
  pub deleted_files : List String
  pub commands_run : List String
  pub finalized : Bool

abbrev pub tombstone_marker : String
tombstone_marker = "__SANDBOX_DELETED__"

unfoldable pub create_sandbox : String → SandboxState
create_sandbox id = record {
  id = id;
  written_files = [];
  deleted_files = [];
  commands_run = [];
  finalized = false;
}

-- `set.add(path)`
unfoldable pub add_path : String → List String → List String
unfolding contains
add_path path paths = if contains paths path then paths else paths ++ path ∷ []

-- `set.delete(path)`
unfoldable pub remove_path : String → List String → List String
remove_path path paths = keep (λ p. not (p == path)) paths

unfoldable pub record_command : String → SandboxState → SandboxState
record_command command s = record s { commands_run = s.commands_run ++ command ∷ [] }

-- `diffs.sort((a, b) => a.path.localeCompare(b.path))`
module _ (le : String → String → Bool) where
  unfoldable pub insert_diff : SandboxFileDiff → List SandboxFileDiff → List SandboxFileDiff
  insert_diff x [] = x ∷ []
  insert_diff x (y ∷ ys) =
      let rest = insert_diff x ys in if le x.path y.path then x ∷ y ∷ ys else y ∷ rest

  unfoldable pub sort_diffs : List SandboxFileDiff → List SandboxFileDiff
  unfolding insert_diff
  sort_diffs [] = []
  sort_diffs (x ∷ xs) = insert_diff x (sort_diffs xs)

-- What `apply` and its loop return: an exception, the error that the sandbox is finalized, or the count.
pub data Applied : Type 0 where
  thrown already_finalized : Applied
  applied : ℕ → Applied

-- `d.modified ?? ""`
unfoldable pub new_text : SandboxFileDiff → String
new_text x = elim x.modified [ none ↦ "" | some text ↦ text ]

module _ {Fs : Type 0} (fs : FileSystem Fs) where
  -- `none` where the function throws: the file is deleted in the sandbox.
  unfoldable pub resolve_read_path : String → Fs → Option (Place × String)
  resolve_read_path path d =
      if fs.exists sandbox_dir path d
      then elim (fs.read sandbox_dir path d) [
        | none ↦ some (sandbox_dir, path)
        | some content ↦ if content == tombstone_marker then none else some (sandbox_dir, path)
      ]
      else some (working_dir, path)

  unfoldable pub resolve_write_path : String → SandboxState → Fs → Option (SandboxState × Fs)
  unfolding add_path remove_path
  resolve_write_path path s d = elim (fs.make_parent sandbox_dir path d) [
    | none ↦ none
    | some d' ↦ some (
      record s {
        written_files = add_path path s.written_files;
        deleted_files = remove_path path s.deleted_files;
      },
      d',
    )
  ]

  unfoldable pub mark_deleted : String → SandboxState → Fs → Option (SandboxState × Fs)
  unfolding add_path remove_path
  mark_deleted path s d = elim (fs.make_parent sandbox_dir path d) [
    | none ↦ none
    | some d₁ ↦ elim (fs.write sandbox_dir path tombstone_marker d₁) [
      | none ↦ none
      | some d₂ ↦ some (
        record s {
          deleted_files = add_path path s.deleted_files;
          written_files = remove_path path s.written_files;
        },
        d₂,
      )
    ]
  ]

  -- A file that holds the mark.
  unfoldable pub deleted_diff : String → Fs → Option (List SandboxFileDiff)
  deleted_diff path d =
      if fs.exists working_dir path d
      then elim (fs.read working_dir path d) [
        | none ↦ none
        | some original ↦ some (
            record { path = path; status = deleted; original = some original; modified = none }
            ∷ [])
      ]
      else some []

  -- Any other file.
  unfoldable pub written_diff : String → String → Fs → Option (List SandboxFileDiff)
  written_diff path content d =
      if fs.exists working_dir path d
      then elim (fs.read working_dir path d) [
        | none ↦ none
        | some original ↦
            if original == content
            then some []
            else some (
                record {
                  path = path;
                  status = modified;
                  original = some original;
                  modified = some content;
                }
                ∷ [])
      ]
      else some
          (record { path = path; status = added; original = none; modified = some content } ∷ [])

  -- The body of `walkSandbox` for a file.
  unfoldable pub file_diff : String → Fs → Option (List SandboxFileDiff)
  unfolding deleted_diff written_diff
  file_diff path d = elim (fs.read sandbox_dir path d) [
    | none ↦ none
    | some content ↦
        if content == tombstone_marker then deleted_diff path d else written_diff path content d
  ]

  unfoldable pub file_diffs : List String → Fs → Option (List SandboxFileDiff)
  unfolding file_diff
  file_diffs [] d = some []
  file_diffs (path ∷ paths) d = elim (file_diff path d) [
    | none ↦ none
    | some xs ↦ elim (file_diffs paths d) [ none ↦ none | some ys ↦ some (xs ++ ys) ]
  ]

  unfoldable pub diff : (le : String → String → Bool) → Fs → Option (List SandboxFileDiff)
  unfolding file_diffs walk sort_diffs
  diff le d = elim (file_diffs (walk "" (fs.tree d)) d) [
    | none ↦ none
    | some xs ↦ some (sort_diffs le xs)
  ]

  unfoldable pub remove_target : SandboxFileDiff → Fs → Option (ℕ × Fs)
  remove_target x d =
      if fs.exists working_dir x.path d
      then elim (fs.remove working_dir x.path d) [ none ↦ none | some d' ↦ some (1, d') ]
      else some (0, d)

  unfoldable pub write_target : SandboxFileDiff → Fs → Option (ℕ × Fs)
  unfolding new_text
  write_target x d = elim (fs.make_parent working_dir x.path d) [
    | none ↦ none
    | some d₁ ↦ elim (fs.write working_dir x.path (new_text x) d₁) [
      | none ↦ none
      | some d₂ ↦ some (1, d₂)
    ]
  ]

  -- One round of the loop of `apply`: how many it counts, and the file system.
  unfoldable pub apply_diff : SandboxFileDiff → Fs → Option (ℕ × Fs)
  unfolding remove_target write_target
  apply_diff x d = elim x.status [
    | deleted ↦ remove_target x d
    | added ↦ write_target x d
    | modified ↦ write_target x d
  ]

  -- The loop of `apply`; an exception leaves what was written until then. A write that throws is taken
  -- to leave the file system as it was before its round.
  unfoldable pub apply_diffs : List SandboxFileDiff → ℕ → Fs → Applied × Fs
  unfolding apply_diff
  apply_diffs [] count d = (applied count, d)
  apply_diffs (x ∷ xs) count d = elim (apply_diff x d) [
    | none ↦ (thrown, d)
    | some (n, d') ↦ apply_diffs xs (count + n) d'
  ]

  -- The sandbox is removed after the loop, and not after an exception.
  unfoldable pub clean_up : Applied × Fs → Applied × Fs
  clean_up (applied n, d) = (applied n, fs.remove_sandbox d)
  clean_up (thrown, d) = (thrown, d)
  clean_up (already_finalized, d) = (already_finalized, d)

  module _ (le : String → String → Bool) where
    unfoldable pub apply : SandboxState → Fs → SandboxState × (Applied × Fs)
    unfolding diff apply_diffs clean_up
    apply s d = if s.finalized then (s, (already_finalized, d)) else (
      record s { finalized = true },
      elim (diff le d) [ none ↦ (thrown, d) | some xs ↦ clean_up (apply_diffs xs 0 d) ],
    )

  unfoldable pub discard : SandboxState → Fs → SandboxState × Fs
  discard s d = if s.finalized then (s, d) else (record s { finalized = true }, fs.remove_sandbox d)
