-- ===== src/Sandbox/Tests.antt =====
-- A stage that rewrites one file, adds a second, and deletes a third.
use open_thinking.Base.{String, Bool, true, false, none, List, [], ◌∷◌, ◌≡◌, refl, ◌⊎◌}
use open_thinking.Context.Compression.{is_some}
use open_thinking.Sandbox.Files.{nil, file, dir, walk}
use open_thinking.Sandbox.Manager.{create_sandbox, tombstone_marker, apply, SandboxState}
use open_thinking.Sandbox.Memory.{
  Memory, memory, memory-IsFileSystem, find_file, files_of, with_files, without, tree_of,
}
use open_thinking.Sandbox.Tools.{Paths}
use open_thinking.Sandbox.Tools.Session.{Change, write, delete, run_session, replay, read_shown}
use open_thinking.Sandbox.Tools.Session.Laws.{session-applied}

walked : walk "" (dir "src" (file "a.ts" nil) (file "b.ts" nil)) ≡ "src/a.ts" ∷ "b.ts" ∷ []
unfolding walk
walked = refl

abbrev plain : Paths
plain = record { resolve = λ from path. path; relative = λ from path. path }

abbrev any_order : String → String → Bool
any_order a b = true

abbrev writes : String → String → Change
writes path text = write (record { json = "{}"; texts = ("path", path) ∷ ("content", text) ∷ [] })

abbrev project : Memory
project = ([], ("a.ts", "old") ∷ ("c.ts", "gone") ∷ [])

abbrev changes : List Change
changes = writes "a.ts" "new" ∷ writes "../b.ts" "x" ∷ writes "b.ts" "text" ∷ delete "c.ts" ∷ []

abbrev after : Memory
after = (
  ("c.ts", tombstone_marker) ∷ ("b.ts", "text") ∷ ("a.ts", "new") ∷ [],
  ("a.ts", "old") ∷ ("c.ts", "gone") ∷ [],
)

abbrev state_after : SandboxState
state_after = record {
  id = "s1";
  written_files = "a.ts" ∷ "b.ts" ∷ [];
  deleted_files = "c.ts" ∷ [];
  commands_run = [];
  finalized = false;
}

abbrev released : Memory
released = ([], ("a.ts", "new") ∷ ("b.ts", "text") ∷ ("a.ts", "old") ∷ [])

session-applied_example :
    (find_file "a.ts" after.1 ≡ find_file "a.ts" project.1)
    × (find_file "a.ts" released.1 ≡ replay plain "/p" "a.ts" changes (find_file "a.ts" project.1))
    × ((read_shown memory "a.ts" after ≡ none)
        ⊎ (read_shown memory "a.ts" after ≡ find_file "a.ts" released.1))
unfolding run_session apply create_sandbox find_file files_of with_files without tree_of
    memory-IsFileSystem is_some
session-applied_example =
    session-applied memory memory-IsFileSystem plain "/p" "s1" any_order changes project after
      released state_after 3 "a.ts" refl refl refl
