-- ===== src/Tools/GetContext.antt =====
-- src/tools/built-in-tools.ts, `createGetContextTool`. The tool keeps the values that it has handed out.
pub mod Laws
use open_thinking.Base.{
  ℕ, String, Bool, true, false, Option, none, some, List, [], ◌∷◌, ◌==◌, if◌then◌else◌,
}
use open_thinking.Base.Texts.{starts_with}
use open_thinking.Result.{Result, Void, ok, err}
use open_thinking.Errors.{PolicyError, ContextError}
use open_thinking.Agent.Text.{◌⋯◌, Args, text_arg}
use open_thinking.Agent.Memory.{find}
use open_thinking.Policy.Access.{Permissions, check_read_access}
use open_thinking.Context.Database.{Database}
use open_thinking.Context.Store.{Config, ContextEntry}
use open_thinking.Context.Store

pub data GetError : Type 0 where
  no_key : GetError
  read_refused : PolicyError → GetError
  store_failed : ContextError → GetError
  missing : String → GetError

-- `map.set(key, value)`
unfoldable pub remember : String → String → List (String × String) → List (String × String)
remember key value [] = (key, value) ∷ []
remember key value ((k, v) ∷ entries) =
    let rest = remember key value entries in
    if key == k then (key, value) ∷ entries else (k, v) ∷ rest

unfoldable pub cached_note : String → String
cached_note key =
    "[cached: context key \"" ⋯ key
    ⋯ "\" unchanged since the previous fetch in this stage. The value is already in your working memory.]"

-- The value was handed out before, and is the same.
unfoldable pub is_repeated : Option String → String → Bool
is_repeated none value = false
is_repeated (some old) value = old == value

-- The test before the store is read: the keys of the executor's own notes are open to every stage.
unfoldable pub read_allowed : String → Permissions → String → Result Void PolicyError
unfolding check_read_access starts_with
read_allowed stage_name permissions key =
    if starts_with key "persistent." then ok tt else check_read_access stage_name permissions key

-- `typeof key !== "string" || !key`
unfoldable pub key_arg : Args → Option String
unfolding text_arg
key_arg args = elim (text_arg "key" args.texts) [
  | none ↦ none
  | some key ↦ if key == "" then none else some key
]

abbrev pub Cache : Type 0
Cache = List (String × String)

unfoldable pub hand_out : Cache → String → String → Result String GetError × Cache
unfolding find is_repeated remember cached_note
hand_out cache key value =
    if is_repeated (find key cache) value
    then (ok (cached_note key), cache)
    else (ok value, remember key value cache)

-- What the store returned.
unfoldable pub answer :
    Cache → String → Result (Option ContextEntry) ContextError → Result String GetError × Cache
unfolding hand_out
answer cache key (err e) = (err (store_failed e), cache)
answer cache key (ok none) = (err (missing key), cache)
answer cache key (ok (some entry)) = hand_out cache key entry.value

module _ {Db : Type 0} (config : Config) (db : Database Db) (stage_name : String)
    (permissions : Permissions) where
  unfoldable pub get_context : (now : ℕ) → Args → Cache → Db → Result String GetError × (Cache × Db)
  unfolding key_arg read_allowed answer
  get_context now args cache d = elim (key_arg args) [
    | none ↦ (err no_key, (cache, d))
    | some key ↦ elim (read_allowed stage_name permissions key) [
      | err e ↦ (err (read_refused e), (cache, d))
      | ok allowed ↦
          let (found, d') = Store.get config db now key d in
          let (result, cache') = answer cache key found in (result, (cache', d'))
    ]
  ]
