-- ===== src/Policy/Engine.antt =====
-- src/policies/engine/policy-engine.ts, the policy engine of a run: an optional rate limiter beside
-- an optional cost tracker. Its access checks are those of Policy/Access.
pub mod Laws
use open_thinking.Base.{ℕ, String, Option, none, some, ◌==◌, if◌then◌else◌}
use open_thinking.Result.{Result, Void, ok, err}
use open_thinking.Errors.{PolicyError}
use open_thinking.Policy.Rate
use open_thinking.Policy.Rate.{RateLimiter, create_rate_limiter, try_consume}
use open_thinking.Policy.Cost
use open_thinking.Policy.Cost.{CostTracker, create_cost_tracker}

pub record GlobalPolicies : Type 0 where
  pub rate_limit : Option String
  pub cost_limit : Option String

pub record PolicyEngine : Type 0 where
  pub rate_limiter : Option RateLimiter
  pub cost_tracker : Option CostTracker

-- `if (policies.limit) { … }`: no text, or the empty one, asks for no limiter.
unfoldable pub wire {ℓ} :
    {A : Type ℓ} → (String → Result A PolicyError) → Option String → Result (Option A) PolicyError
wire create none = ok none
wire create (some limit) =
    if limit == "" then ok none else elim (create limit) [ ok a ↦ ok (some a) | err e ↦ err e ]

unfoldable pub create_policy_engine : ℕ → GlobalPolicies → Result PolicyEngine PolicyError
unfolding wire
create_policy_engine now policies = elim (wire (create_rate_limiter now) policies.rate_limit) [
  | err e ↦ err e
  | ok rate ↦ elim (wire create_cost_tracker policies.cost_limit) [
    | err e ↦ err e
    | ok cost ↦ ok (record { rate_limiter = rate; cost_tracker = cost })
  ]
]

unfoldable pub rate_call :
    ℕ → String → Option RateLimiter → Option RateLimiter × Result Void PolicyError
rate_call now stage_name none = (none, ok tt)
rate_call now stage_name (some l) =
    let (l', outcome) = try_consume now stage_name l in (some l', outcome)

unfoldable pub try_consume_rate : ℕ → String → PolicyEngine → PolicyEngine × Result Void PolicyError
unfolding rate_call
try_consume_rate now stage_name e =
    let (rate, outcome) = rate_call now stage_name e.rate_limiter in
    (record e { rate_limiter = rate }, outcome)

unfoldable pub cost_call :
    ℕ → String → Option CostTracker → Option CostTracker × Result Void PolicyError
cost_call amount stage_name none = (none, ok tt)
cost_call amount stage_name (some t) =
    let (t', outcome) = Cost.record_cost amount stage_name t in (some t', outcome)

unfoldable pub record_cost : ℕ → String → PolicyEngine → PolicyEngine × Result Void PolicyError
unfolding cost_call
record_cost amount stage_name e =
    let (cost, outcome) = cost_call amount stage_name e.cost_tracker in
    (record e { cost_tracker = cost }, outcome)

unfoldable pub total_of : Option CostTracker → ℕ
total_of none = 0
total_of (some t) = t.total_cost

unfoldable pub total_cost : PolicyEngine → ℕ
unfolding total_of
total_cost e = total_of e.cost_tracker

unfoldable pub reset_rate : ℕ → Option RateLimiter → Option RateLimiter
reset_rate now none = none
reset_rate now (some l) = some (Rate.reset now l)

unfoldable pub reset_cost : Option CostTracker → Option CostTracker
reset_cost none = none
reset_cost (some t) = some (Cost.reset t)

unfoldable pub reset : ℕ → PolicyEngine → PolicyEngine
unfolding reset_rate reset_cost
reset now e = record {
  rate_limiter = reset_rate now e.rate_limiter;
  cost_tracker = reset_cost e.cost_tracker;
}
