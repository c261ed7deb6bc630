-- ===== src/Policy/Tests.antt =====
-- The policies at concrete inputs: a limit of three calls a second, a limit of five dollars, and the
-- permissions of a stage of the README's pipeline.
use open_thinking.Base.{
  ℕ, String, ◌≤◌, ◌*◌, ◌+◌, ◌-◌, ◌≡◌, refl, ◌↔◌, ◌⊎◌, List, [], ◌∷◌, some, arith, true, false,
}
use open_thinking.Result.{ok}
use open_thinking.Base.Texts.{split}
use open_thinking.Policy.Glob.{match_glob}
use open_thinking.Policy.Glob.Laws.{Matches, match_glob_iff}
use open_thinking.Policy.Access.{Permissions, check_read_access, check_write_access}
use open_thinking.Policy.Access.Laws.{Decides, check_access-Decides}
use open_thinking.Errors.{read_denied, write_denied}
use open_thinking.Policy.Rate.{RateLimiter, create_rate_limiter}
use open_thinking.Policy.Rate.Laws.{serve, serve-le-limit}
use open_thinking.Policy.Cost.{CostTracker, create_cost_tracker}
use open_thinking.Policy.Cost.Laws.{charge, taken, charge-le-max}
use open_thinking.Policy.Engine.{
  GlobalPolicies, PolicyEngine, create_policy_engine, try_consume_rate, record_cost,
}
use open_thinking.Policy.Engine.Laws.{
  IsWithin, here, next, rated, charged, create_policy_engine-IsWithin,
}

match_nested : match_glob "plan.**" "plan.api.routes" ≡ true
unfolding match_glob
match_nested = refl

match_glob_iff_example :
    (match_glob "plan.*" "plan.output" ≡ true)
    ↔ ((◌≡◌ {A = String} "plan.*" "*") ⊎ Matches (split b'.' "plan.*") (split b'.' "plan.output"))
match_glob_iff_example = match_glob_iff "plan.*" "plan.output"

abbrev developer : Permissions
developer = record { read = "input.*" ∷ "plan.*" ∷ []; write = "code.*" ∷ []; eager = false }

check_access-Decides_example :
    Decides
      (check_read_access "develop" developer "plan.output")
      (record { code = read_denied; stage_name = some "develop" })
      developer.read
      "plan.output"
    × Decides
        (check_write_access "develop" developer "plan.output")
        (record { code = write_denied; stage_name = some "develop" })
        developer.write
        "plan.output"
check_access-Decides_example = check_access-Decides "develop" "plan.output" developer

abbrev three_a_second : RateLimiter
three_a_second = record { max_tokens = 3; window_ms = 1_000; tokens = 3; last_refill = 50 }

create_three : create_rate_limiter 50 "3/second" ≡ ok three_a_second
unfolding create_rate_limiter
create_three = refl

abbrev readings : List ℕ
readings = 60 ∷ 70 ∷ 80 ∷ 90 ∷ 400 ∷ []

serve-le-limit_example :
    (serve "develop" readings three_a_second).1 * 1_000 ≤ 3 * 1_000 + (400 - 50) * 3
serve-le-limit_example =
    serve-le-limit "3/second" "develop" 50 400 readings create_three (omega arith) (omega arith)

abbrev five_dollars : CostTracker
five_dollars = record { max_cost = 5_000_000_000; total_cost = 0 }

abbrev bills : List (ℕ × String)
bills = (3_000_000_000, "planning") ∷ (2_500_000_000, "develop") ∷ (2_000_000_000, "testing") ∷ []

charge-le-max_example :
    ((charge bills five_dollars).total_cost ≡ taken 5_000_000_000 0 bills)
    × ((charge bills five_dollars).total_cost ≤ 5_000_000_000)
charge-le-max_example = charge-le-max bills five_dollars (omega arith)

abbrev policies : GlobalPolicies
policies = record { rate_limit = some "3/second"; cost_limit = some "$5/run" }

abbrev engine : PolicyEngine
engine = record { rate_limiter = some three_a_second; cost_tracker = some five_dollars }

create_engine : create_policy_engine 50 policies ≡ ok engine
unfolding create_policy_engine create_rate_limiter create_cost_tracker
create_engine = refl

create_policy_engine-IsWithin_example :
    IsWithin (record_cost 3_000_000_000 "develop" (try_consume_rate 60 "develop" engine).0).0
create_policy_engine-IsWithin_example =
    create_policy_engine-IsWithin 50 policies create_engine
      (next (next here (rated 60 "develop" engine)) (charged 3_000_000_000 "develop" _))
