-- ===== src/Tools/Registry.antt =====
-- src/tools/tool-registry.ts. A tool is its definition and a function over a world, which gives `none`
-- when it throws. The permission engine is that of Permission/Engine, or none.
pub mod Laws
use open_thinking.Base.{
  String, Bool, true, false, ◌||◌, Option, none, some, List, [], ◌∷◌, ◌++◌, ◌==◌, if◌then◌else◌,
  map,
}
use open_thinking.Base.Texts.{contains}
use open_thinking.Result.{Result, ok, err}
use open_thinking.Types.{PermissionMode}
use open_thinking.Chat.{ToolDefinition}
use open_thinking.Agent.Text.{◌⋯◌, Args, text_arg}
use open_thinking.Permission.Store.{PermissionAction, allow, deny}
use open_thinking.Permission.Engine.{
  Risk, PermissionRequest, PermissionResponse, PermissionState, check,
}

-- The value of a tool: a text, or anything else, as `JSON.stringify` prints it.
pub data ToolValue : Type 0 where
  text json : String → ToolValue

pub record Tool (W : Type 0) : Type 0 where
  pub definition : ToolDefinition
  pub execute : Args → W → Option (Result ToolValue String) × W

-- What the built-in tools are: on the project, and in a sandbox.
pub record Builtins (W : Type 0) : Type 0 where
  pub plain : List (Tool W)
  pub sandboxed : List (Tool W)

-- `permissionAccess`
pub record PermissionAccess : Type 0 where
  pub classify : String → Args → Risk
  pub mode : PermissionMode

-- `!allowed || allowed.has(name) || name === "get_context"`
unfoldable pub is_offered : Option (List String) → String → Bool
unfolding contains
is_offered none name = true
is_offered (some allowed) name = contains allowed name || name == "get_context"

unfoldable pub to_text : ToolValue → String
to_text (text s) = s
to_text (json s) = s

-- The result of a tool, as the registry returns it.
unfoldable pub text_result : Option (Result ToolValue String) → Option (Result String String)
unfolding to_text
text_result none = none
text_result (some (ok value)) = some (ok (to_text value))
text_result (some (err e)) = some (err e)

-- `args.path ?? args.command ?? ""`
unfoldable pub denied_subject : Args → String
unfolding text_arg
denied_subject args = elim (text_arg "path" args.texts) [
  | some path ↦ path
  | none ↦ elim (text_arg "command" args.texts) [ some command ↦ command | none ↦ "" ]
]

module _ {W : Type 0} where
  -- `tools.set(tool.name, tool)`: a name that is there keeps its place.
  unfoldable pub set_tool : Tool W → List (Tool W) → List (Tool W)
  set_tool tool [] = tool ∷ []
  set_tool tool (t ∷ tools) =
      let rest = set_tool tool tools in
      if t.definition.name == tool.definition.name then tool ∷ tools else t ∷ rest

  -- `tools.get(name)`
  unfoldable pub get_tool : String → List (Tool W) → Option (Tool W)
  get_tool name [] = none
  get_tool name (t ∷ tools) = if t.definition.name == name then some t else get_tool name tools

  -- The loop over the built-in tools.
  unfoldable pub register : Option (List String) → List (Tool W) → List (Tool W) → List (Tool W)
  unfolding is_offered set_tool
  register allowed [] tools = tools
  register allowed (t ∷ builtins) tools =
      register allowed builtins
        (if is_offered allowed t.definition.name then set_tool t tools else tools)

  unfoldable pub builtins_of : Builtins W → Option (Tool W) → (sandbox : Bool) → List (Tool W)
  builtins_of builtins context_tool sandbox =
      (if sandbox then builtins.sandboxed else builtins.plain)
      ++ elim context_tool [ none ↦ [] | some tool ↦ tool ∷ [] ]

  unfoldable pub create_tool_registry :
      Builtins W → Option (List String) → Option (Tool W) → (sandbox : Bool) → List (Tool W)
  unfolding register builtins_of
  create_tool_registry builtins allowed_tools context_tool sandbox =
      register allowed_tools (builtins_of builtins context_tool sandbox) []

  unfoldable pub definitions : List (Tool W) → List ToolDefinition
  definitions tools = map (λ t. t.definition) tools

  module _ (ask : PermissionRequest → W → PermissionResponse × W) where
    unfoldable pub run_tool :
        Tool W → Args → PermissionState W → Option (Result String String) × PermissionState W
    unfolding text_result
    run_tool tool args s =
        let (result, w) = tool.execute args s.world in (text_result result, record s { world = w })

    -- The permission check, for a registry with an engine.
    unfoldable pub permit :
        Option PermissionAccess
        → String
        → Args
        → PermissionState W
        → PermissionAction × PermissionState W
    unfolding check
    permit none name args s = (allow, s)
    permit (some access) name args s = check ask access.classify access.mode name args s

    unfoldable pub execute :
        List (Tool W)
        → Option PermissionAccess
        → String
        → Args
        → PermissionState W
        → Option (Result String String) × PermissionState W
    unfolding get_tool run_tool permit denied_subject
    execute tools access name args s = elim (get_tool name tools) [
      | none ↦ (some (err ("Unknown tool: " ⋯ name)), s)
      | some tool ↦
          let (action, checked) = permit access name args s in
          elim action [
            | deny ↦
                (some (err ("Permission denied for " ⋯ name ⋯ ": " ⋯ denied_subject args)), checked)
            | allow ↦ run_tool tool args checked
          ]
    ]
