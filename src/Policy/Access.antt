-- ===== src/Policy/Access.antt =====
-- src/policies/engine/policy-engine.ts, access control: which context keys a stage may read or
-- write.
pub mod Laws
use open_thinking.Base.{String, Bool, List, [], ◌∷◌, if◌then◌else◌, any, keep, some}
use open_thinking.Result.{Result, Void, ok, err}
use open_thinking.Errors.{PolicyError, read_denied, write_denied}
use open_thinking.Policy.Glob.{match_glob}

pub record Permissions : Type 0 where
  pub read : List String
  pub write : List String
  -- Whether the readable context is put into the prompt in full.
  pub eager : Bool

-- The loop over the patterns: the first that matches grants the access.
unfoldable pub grant : PolicyError → List String → String → Result Void PolicyError
grant denied [] key = err denied
grant denied (pattern ∷ patterns) key =
    if match_glob pattern key then ok tt else grant denied patterns key

unfoldable pub check_read_access : String → Permissions → String → Result Void PolicyError
check_read_access stage_name permissions key =
    grant (record { code = read_denied; stage_name = some stage_name }) permissions.read key

unfoldable pub check_write_access : String → Permissions → String → Result Void PolicyError
check_write_access stage_name permissions key =
    grant (record { code = write_denied; stage_name = some stage_name }) permissions.write key

unfoldable pub filter_readable_keys : Permissions → List String → List String
filter_readable_keys permissions keys =
    keep (λ key. any (λ pattern. match_glob pattern key) permissions.read) keys
