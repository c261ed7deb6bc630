-- ===== src/Sandbox/Files.antt =====
-- The file system under src/core/sandbox. `node:fs` is not part of the repository: it is a record of
-- the calls that the sandbox makes, each of which may throw (`none`), and `IsFileSystem` says of them
-- what the sandbox relies on. A path is one of the two directories that the code joins paths to, with
-- the path below it.
use open_thinking.Base.{
  String, ◌≡◌, Bool, true, false, ◌&&◌, Option, none, some, List, [], ◌∷◌, ◌++◌, ◌==◌, Elem,
  if◌then◌else◌,
}
use open_thinking.Agent.Text.{◌⋯◌}

pub data Place : Type 0 where
  sandbox_dir working_dir : Place

unfoldable pub same_place : Place → Place → Bool
same_place sandbox_dir sandbox_dir = true
same_place working_dir working_dir = true
same_place p q = false

-- What is below a directory; any entry that is no directory is a `file`.
pub data Tree : Type 0 where
  nil : Tree
  file : String → Tree → Tree
  dir : String → Tree → Tree → Tree

-- `relative(sandboxDir, join(dir, entry.name))`, told from the path of `dir`.
unfoldable pub below : String → String → String
below parent name = if parent == "" then name else parent ⋯ "/" ⋯ name

-- The files that `walkSandbox` meets, in its order.
unfoldable pub walk : String → Tree → List String
unfolding below
walk parent nil = []
walk parent (file name rest) = below parent name ∷ walk parent rest
walk parent (dir name inner rest) = walk (below parent name) inner ++ walk parent rest

pub record FileSystem (Fs : Type 0) : Type 0 where
  -- `existsSync`
  pub exists : Place → String → Fs → Bool
  pub is_directory : Place → String → Fs → Bool
  -- `readFileSync(path, "utf-8")`
  pub read : Place → String → Fs → Option String
  -- `mkdirSync(dirname(path), { recursive: true })`
  pub make_parent : Place → String → Fs → Option Fs
  -- `writeFileSync`
  pub write : Place → String → String → Fs → Option Fs
  -- `rmSync` of a file.
  pub remove : Place → String → Fs → Option Fs
  -- What `readdirSync` tells of the sandbox directory and those below it.
  pub tree : Fs → Tree
  -- `rmSync(sandboxDir, { recursive: true, force: true })`, with its failure caught.
  pub remove_sandbox : Fs → Fs

-- What the calls mean: `content` is the text of the file at a path.
pub record IsFileSystem {Fs : Type 0} (fs : FileSystem Fs) : Type 0 where
  pub content : Place → String → Fs → Option String
  pub read_content :
      (pl : Place) (p c : String) (d : Fs) → fs.read pl p d ≡ some c → content pl p d ≡ some c
  pub absent_content :
      (pl : Place) (p : String) (d : Fs) → fs.exists pl p d ≡ false → content pl p d ≡ none
  pub make_parent_content :
      (pl : Place) (p : String) (d d' : Fs) (at : Place) (q : String)
      → fs.make_parent pl p d ≡ some d'
      → content at q d' ≡ content at q d
  pub write_content :
      (pl : Place) (p c : String) (d d' : Fs) (at : Place) (q : String)
      → fs.write pl p c d ≡ some d'
      → content at q d' ≡ (if same_place pl at && p == q then some c else content at q d)
  pub remove_content :
      (pl : Place) (p : String) (d d' : Fs) (at : Place) (q : String)
      → fs.remove pl p d ≡ some d'
      → content at q d' ≡ (if same_place pl at && p == q then none else content at q d)
  pub tree_content :
      (p c : String) (d : Fs) → content sandbox_dir p d ≡ some c → Elem p (walk "" (fs.tree d))
  pub remove_sandbox_content :
      (q : String) (d : Fs) → content working_dir q (fs.remove_sandbox d) ≡ content working_dir q d
