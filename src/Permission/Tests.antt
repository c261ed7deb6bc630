-- ===== src/Permission/Tests.antt =====
-- A user who allows one command for good.
use open_thinking.Base.{String, Bool, true, false, some, [], ◌∷◌, ◌≡◌, refl}
use open_thinking.Types.{strict}
use open_thinking.Agent.Text.{Args}
use open_thinking.Permission.Store.{allow, deny, PermissionRule, find_rule, match_pattern}
use open_thinking.Permission.Engine.{
  moderate, Risk, PermissionRequest, PermissionResponse, PermissionState, check, is_open,
  is_confirm,
}
use open_thinking.Permission.Engine.Laws.{check-remembers}

abbrev may_list : PermissionRule
may_list = record { tool = "run_command"; pattern = "ls *"; action = allow }

abbrev no_command : PermissionRule
no_command = record { tool = "run_command"; pattern = "*"; action = deny }

-- A pattern with a star is matched as one: the stars of a remembered command stand for any text.
star_widens : find_rule "run_command" "ls -la src" (no_command ∷ may_list ∷ []) ≡ some may_list
unfolding find_rule match_pattern
star_widens = refl

abbrev no_args : Args
no_args = record { json = "{}"; texts = [] }

abbrev classify : String → Args → Risk
classify tool given = record { risk = moderate; subject = "ls a"; description = tool }

abbrev allow_always : PermissionRequest → Bool → PermissionResponse × Bool
allow_always request asked = (record { action = allow; remember = true }, true)

abbrev refuse : PermissionRequest → Bool → PermissionResponse × Bool
refuse request asked = (record { action = deny; remember = false }, true)

abbrev start : PermissionState Bool
start = record { rules = []; events = []; world = false }

check-remembers_example :
    (let first = check allow_always classify strict "run_command" no_args start in
      let again = check refuse classify strict "run_command" no_args first.1 in
      (again.0 ≡ first.0) × (again.1.world ≡ first.1.world))
unfolding is_open find_rule is_confirm
check-remembers_example =
    check-remembers allow_always refuse classify strict "run_command" no_args start refl refl refl
      refl
