-- ===== src/Sandbox/Tools/Session.antt =====
-- A stage in a sandbox, from its first tool call to `apply`: what its reads show, what becomes of the
-- project, and that nothing does before.
pub mod Laws
use open_thinking.Base.{
  ℕ, String, ◌≡◌, refl, sym, ap, ◌∙◌, ◌⊎◌, inl, inr, Bool, true, false, Option, none, some, List,
  [], ◌∷◌, ◌==◌, eq_iff, eq_refl, arith, Bool-cases, Option-cases, if◌then◌else◌, some-eq,
  none-ne-some,
}
use open_thinking.Agent.Text.{Args, text_arg}
use open_thinking.Sandbox.Files.{
  Place, sandbox_dir, working_dir, same_place, FileSystem, IsFileSystem,
}
use open_thinking.Sandbox.Manager.{
  SandboxState, Applied, applied, tombstone_marker, create_sandbox, resolve_read_path,
  resolve_write_path, mark_deleted, apply,
}
use open_thinking.Sandbox.Manager.Diffs.{overlay, view}
use open_thinking.Sandbox.Manager.Laws.{apply-view}
use open_thinking.Sandbox.Tools.{Paths, path_arg, safe_relative, write_content_to, write_file}

-- What a stage does that changes the sandbox: a call of `write_file`, or a file marked as deleted.
pub data Change : Type 0 where
  write : Args → Change
  delete : String → Change

-- The text that a written text leaves in the project: none, if it is the mark.
unfoldable pub kept : String → Option String
kept text = if text == tombstone_marker then none else some text

module _ (paths : Paths) (root : String) where
  -- The path below the project and the text of a call that writes.
  unfoldable pub written : Args → Option (String × String)
  unfolding path_arg safe_relative
  written args = elim (path_arg paths root args) [
    | none ↦ none
    | some path ↦ elim (text_arg "content" args.texts) [
      | none ↦ none
      | some text ↦ elim (safe_relative paths root path) [
        | none ↦ none
        | some rel ↦ some (rel, text)
      ]
    ]
  ]

  -- What a file of the project is to hold after the changes, from what it held before.
  unfoldable pub replay : String → List Change → Option String → Option String
  unfolding written kept
  replay q [] old = old
  replay q (write args ∷ changes) old =
      replay q changes (elim (written args) [
        | none ↦ old
        | some (rel, text) ↦ if rel == q then kept text else old
      ])
  replay q (delete rel ∷ changes) old = replay q changes (if rel == q then none else old)

  module _ {Fs : Type 0} (fs : FileSystem Fs) where
    unfoldable pub change : Change → SandboxState → Fs → Option (SandboxState × Fs)
    unfolding write_file mark_deleted
    change (write args) s d = elim (write_file paths root fs args s d) [
      | none ↦ none
      | some (result, after) ↦ some after
    ]
    change (delete rel) s d = mark_deleted fs rel s d

    -- `none` if a call throws.
    unfoldable pub run_session : List Change → SandboxState → Fs → Option (SandboxState × Fs)
    unfolding change
    run_session [] s d = some (s, d)
    run_session (c ∷ changes) s d = elim (change c s d) [
      | none ↦ none
      | some (s', d') ↦ run_session changes s' d'
    ]

-- The text that a read through the sandbox returns, `none` where it fails.
unfoldable pub read_shown : {Fs : Type 0} → FileSystem Fs → String → Fs → Option String
unfolding resolve_read_path
read_shown fs q d = elim (resolve_read_path fs q d) [
  | none ↦ none
  | some (place, path) ↦ fs.read place path d
]
