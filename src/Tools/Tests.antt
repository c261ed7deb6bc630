-- ===== src/Tools/Tests.antt =====
-- A registry of two tools whose world is the list of the tools that ran, and the context in memory.
use open_thinking.Base.{String, ◌≡◌, refl, false, Option, none, some, List, [], ◌∷◌, ◌++◌}
use open_thinking.Result.{ok}
use open_thinking.Types.{confirm}
use open_thinking.Agent.Text.{Args}
use open_thinking.Permission.Store.{deny, find_rule}
use open_thinking.Permission.Engine.{
  dangerous, PermissionRequest, PermissionResponse, PermissionState,
}
use open_thinking.Context.Memory.{Memory, memory, memory-IsTable}
use open_thinking.Context.Store.{Config}
use open_thinking.Policy.Access.{Permissions}
use open_thinking.Tools.Registry.{
  text, Tool, Builtins, PermissionAccess, builtins_of, create_tool_registry, execute,
}
use open_thinking.Tools.Registry.Laws.{Executed, execute-Executed}
use open_thinking.Tools.GetContext.{get_context}
use open_thinking.Tools.GetContext.Laws.{Served, get_context-Served}

abbrev tool_named : String → Tool (List String)
tool_named name = record {
  definition = record { name = name; description = ""; parameters = "{}" };
  execute = λ args ran. (some (ok (text "done")), ran ++ name ∷ []);
}

abbrev tools : Builtins (List String)
tools = record {
  plain = tool_named "read_file" ∷ tool_named "run_command" ∷ tool_named "write_file" ∷ [];
  sandboxed = [];
}

abbrev allowed : Option (List String)
allowed = some ("read_file" ∷ "run_command" ∷ [])

abbrev refusing : PermissionRequest → List String → PermissionResponse × List String
refusing request ran = (record { action = deny; remember = false }, ran)

abbrev access : Option PermissionAccess
access = some (record {
  classify = λ name args. record { risk = dangerous; subject = name; description = name };
  mode = confirm;
})

abbrev start : PermissionState (List String)
start = record { rules = []; events = []; world = [] }

abbrev no_args : Args
no_args = record { json = "{}"; texts = [] }

abbrev run_named : String → Option PermissionAccess → List String
run_named name gate =
    (execute refusing (create_tool_registry tools allowed none false) gate name no_args
      start).1.world

refused_run : run_named "run_command" access ≡ []
unfolding execute create_tool_registry find_rule
refused_run = refl

open_run : run_named "run_command" none ≡ "run_command" ∷ []
unfolding execute create_tool_registry
open_run = refl

unlisted_run : run_named "write_file" none ≡ []
unfolding execute create_tool_registry
unlisted_run = refl

execute-Executed_example :
    (let made = create_tool_registry tools allowed none false in
      let out = execute refusing made access "run_command" no_args start in
      Executed refusing
        (builtins_of tools none false)
        allowed
        access
        "run_command"
        no_args
        start
        out.0
        out.1.world)
execute-Executed_example =
    execute-Executed refusing tools allowed none false access "run_command" no_args start

abbrev config : Config
config = record {
  zip = record { gzip = λ s. s; gunzip = λ s. some s };
  default_ttl_ms = none;
  write_json = λ entries. "";
  read_json = λ s. none;
}

abbrev stored : Memory
stored = (
  record {
    key = "plan.output";
    value = "a plan";
    created_by = "plan";
    created_at = 0;
    expires_at = none;
  }
      ∷ [],
  [],
)

abbrev reader : Permissions
reader = record { read = "plan.*" ∷ []; write = []; eager = false }

abbrev wanted : Args
wanted = record { json = "{}"; texts = ("key", "plan.output") ∷ [] }

get_context-Served_example :
    (let out = get_context config memory "code" reader 5 wanted [] stored in
      Served config memory memory-IsTable reader 5 wanted [] stored out.0 out.1.0 out.1.1)
get_context-Served_example =
    get_context-Served config memory memory-IsTable "code" reader 5 wanted [] stored
