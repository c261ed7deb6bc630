-- ===== src/Pipeline/Payload.antt =====
-- src/pipeline/executor/stage-executor.ts, buildContextPayload, formatContextForPrompt,
-- seedPersistentLazyContext and writeStageOutput: what a stage sees of the context, and what it leaves
-- there. A payload is the list of its entries in the order of insertion (a key is no array index).
pub mod Laws
use Prim.Native.String
use Prim.Native.String.{len}
use open_thinking.Base.{
  ℕ, String, ◌*◌, Bool, true, false, Option, none, some, List, [], ◌∷◌, ◌++◌, ◌==◌, ltb, leb,
  if◌then◌else◌, map, is_empty, keep, not,
}
use open_thinking.Base.Texts.{join, show}
use open_thinking.Result.{Result, Void, ok, err}
use open_thinking.Errors.{PolicyError, ContextError}
use open_thinking.Agent.Text.{◌⋯◌, to_fixed_1}
use open_thinking.Policy.Access.{
  Permissions, check_read_access, check_write_access, filter_readable_keys,
}
use open_thinking.Context.Database.{Database}
use open_thinking.Context.Store
use open_thinking.Context.Store.{ContextEntry, Config}
use open_thinking.Pipeline.Stage.{StageResult}
use open_thinking.Pipeline.Recovery.{ExecutorEvent}
use open_thinking.Pipeline.Run.{PipelineEvent}

pub data StageEvent : Type 0 where
  stage_start : (stage_name model : String) → StageEvent
  stage_complete : StageResult → StageEvent
  stage_error : (stage_name error : String) → StageEvent
  stage_warning : (stage_name message : String) → StageEvent
  context_read context_write : (stage_name key : String) → StageEvent
  policy_violation : (stage_name rule detail : String) → StageEvent
  delegate_start : (agent_name model task : String) → StageEvent
  delegate_complete : (agent_name : String) → StageResult → StageEvent
  delegate_error : (agent_name error : String) → StageEvent
  of_recovery : ExecutorEvent → StageEvent
  of_pipeline : PipelineEvent → StageEvent

abbrev pub Payload : Type 0
Payload = List (String × String)

-- `payload[key] = value`
unfoldable pub put_value : String → String → Payload → Payload
put_value key value [] = (key, value) ∷ []
put_value key value ((k, v) ∷ payload) =
    let rest = put_value key value payload in
    if k == key then (key, value) ∷ payload else (k, v) ∷ rest

-- `entries.find((e) => e.key === key)`
unfoldable pub find_entry : String → List ContextEntry → Option ContextEntry
find_entry key [] = none
find_entry key (e ∷ entries) =
    let rest = find_entry key entries in if e.key == key then some e else rest

unfoldable pub is_allowed : Result Void PolicyError → Bool
is_allowed (ok done) = true
is_allowed (err e) = false

-- One readable key: the payload and the events.
unfoldable pub add_entry :
    (stage_name : String)
    → Permissions
    → (key : String) → Option ContextEntry
    → Payload × List StageEvent
    → Payload × List StageEvent
unfolding is_allowed put_value
add_entry stage_name permissions key none so_far = so_far
add_entry stage_name permissions key (some entry) (payload, events) =
    if is_allowed (check_read_access stage_name permissions key)
    then (put_value key entry.value payload, events ++ context_read stage_name key ∷ [])
    else (payload, events)

-- The loop over the readable keys.
unfoldable pub gather :
    (stage_name : String)
    → Permissions
    → List ContextEntry
    → List String
    → Payload × List StageEvent
    → Payload × List StageEvent
unfolding find_entry add_entry
gather stage_name permissions entries [] so_far = so_far
gather stage_name permissions entries (key ∷ keys) so_far =
    gather stage_name permissions entries keys
      (add_entry stage_name permissions key (find_entry key entries) so_far)

-- The payload of the entries that the store lists.
unfoldable pub payload_of :
    (stage_name : String) → Permissions → List ContextEntry → Payload × List StageEvent
unfolding gather
payload_of stage_name permissions entries =
    gather stage_name permissions entries
      (filter_readable_keys permissions (map (λ e. e.key) entries)) ([], [])

abbrev pub eager_inline_threshold : ℕ
eager_inline_threshold = 500

unfoldable pub format_bytes_short : ℕ → String
unfolding to_fixed_1
format_bytes_short bytes =
    if ltb bytes 1024
    then show bytes ⋯ "B"
    else if ltb bytes 1_048_576
    then to_fixed_1 bytes 1024 ⋯ "KB"
    else to_fixed_1 bytes 1_048_576 ⋯ "MB"

unfoldable pub inline_text : String × String → String
inline_text (key, value) = "[" ⋯ key ⋯ "]\n" ⋯ value

unfoldable pub is_small : String × String → Bool
is_small (key, value) = leb (len value) eager_inline_threshold

unfoldable pub index_line : String × String → String
unfolding is_small format_bytes_short
index_line (key, value) =
    if is_small (key, value)
    then "  - " ⋯ key ⋯ " (" ⋯ show (len value) ⋯ "B, inlined above)"
    else "  - "
      ⋯ key
      ⋯ " ("
      ⋯ format_bytes_short (len value)
      ⋯ ", fetch with get_context(\""
      ⋯ key
      ⋯ "\"))"

-- The block of the prompt; its size is `len`.
unfoldable pub format_context_for_prompt : Payload → (eager : Bool) → String
unfolding inline_text is_small index_line
format_context_for_prompt context eager =
    let index =
      "--- Available context keys ---\n" ⋯ join "\n" (map index_line context) ⋯ "\n--- End ---" in
    let small = map inline_text (keep is_small context) in
    let inlined = "--- Context (inlined) ---\n" ⋯ join "\n\n" small ⋯ "\n--- End Context ---" in
    if is_empty context
    then ""
    else if eager
    then "\n\n--- Context ---\n" ⋯ join "\n\n" (map inline_text context) ⋯ "\n--- End Context ---"
    else "\n\n" ⋯ join "\n\n" (if is_empty small then index ∷ [] else inlined ∷ index ∷ [])

-- Why the output was not written.
pub data WriteError : Type 0 where
  denied : PolicyError → WriteError
  not_stored : ContextError → WriteError

module _ {Db : Type 0} (config : Config) (db : Database Db) where
  -- The payload, with the events, or the error of the store.
  unfoldable pub build_context_payload :
      (now : ℕ)
      → (stage_name : String) → Permissions
      → Db
      → Result (Payload × List StageEvent) ContextError
  unfolding payload_of
  build_context_payload now stage_name permissions d = elim (Store.list config db now none d) [
    | err e ↦ err e
    | ok entries ↦ ok (payload_of stage_name permissions entries)
  ]

  -- A text that is there is stored; a failure is silent.
  unfoldable pub seed_entry : (now : ℕ) → (key stage_name : String) → Option String → Db → Db
  seed_entry now key stage_name none d = d
  seed_entry now key stage_name (some value) d =
      if value == "" then d else (Store.set config db now key value stage_name d).1

  unfoldable pub seed_persistent_lazy_context :
      (now : ℕ) → (stage_name : String) → (learned history : Option String) → Db → Db
  unfolding seed_entry
  seed_persistent_lazy_context now stage_name learned history d =
      seed_entry now "persistent.history" stage_name history
        (seed_entry now "persistent.learned" stage_name learned d)

  unfoldable pub write_stage_output :
      (now : ℕ)
      → (stage_name : String) → Permissions
      → (output : String) → Db
      → Result String WriteError × Db
  write_stage_output now stage_name permissions output d =
      let default_key = stage_name ⋯ ".output" in
      elim (check_write_access stage_name permissions default_key) [
        | err e ↦ (err (denied e), d)
        | ok allowed ↦
            let (written, d') = Store.set config db now default_key output stage_name d in
            elim written [ ok done ↦ (ok default_key, d') | err e ↦ (err (not_stored e), d') ]
      ]
