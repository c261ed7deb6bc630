-- ===== src/Policy/Engine/Laws.antt =====
-- The policy engine under any sequence of its operations.
use open_thinking.Base.{ℕ, String, ◌≤◌, ◌≡◌, inl, inr, Option, none, some, arith}
use open_thinking.Result.{ok, Result-cases}
use open_thinking.Policy.Rate
use open_thinking.Policy.Rate.{RateLimiter, create_rate_limiter}
use open_thinking.Policy.Rate.Laws.{create_state}
use open_thinking.Policy.Cost
use open_thinking.Policy.Cost.{CostTracker, create_cost_tracker}
use open_thinking.Policy.Engine.{
  GlobalPolicies, PolicyEngine, wire, create_policy_engine, rate_call, try_consume_rate, cost_call,
  record_cost, reset_rate, reset_cost, reset,
}

abbrev RateWithin : Option RateLimiter → Type 0
RateWithin none = Unit {0}
RateWithin (some l) = l.tokens ≤ l.max_tokens

abbrev CostWithin : Option CostTracker → Type 0
CostWithin none = Unit {0}
CostWithin (some t) = t.total_cost ≤ t.max_cost

-- The bucket holds at most its size, and the total is at most the limit.
pub record IsWithin (e : PolicyEngine) : Type 0 where
  pub rate : RateWithin e.rate_limiter
  pub cost : CostWithin e.cost_tracker

-- What a run may do to its engine; the amounts, the stages and the clock are any.
pub data Step : PolicyEngine → PolicyEngine → Type 0 where
  rated : (now : ℕ) (stage : String) (e : PolicyEngine) → Step e (try_consume_rate now stage e).0
  charged : (amount : ℕ) (stage : String) (e : PolicyEngine) → Step e (record_cost amount stage e).0
  restarted : (now : ℕ) (e : PolicyEngine) → Step e (reset now e)

pub data Reach (e : PolicyEngine) : PolicyEngine → Type 0 where
  here : Reach e e
  next : {f g : PolicyEngine} → Reach e f → Step f g → Reach e g

rate_call-RateWithin :
    (now : ℕ) (stage : String) (r : Option RateLimiter)
    → RateWithin r
    → RateWithin (rate_call now stage r).0
unfolding rate_call Rate.try_consume
rate_call-RateWithin now stage none h = tt
rate_call-RateWithin now stage (some l) h = ground arith

cost_call-CostWithin :
    (amount : ℕ) (stage : String) (c : Option CostTracker)
    → CostWithin c
    → CostWithin (cost_call amount stage c).0
unfolding cost_call Cost.record_cost
cost_call-CostWithin amount stage none h = tt
cost_call-CostWithin amount stage (some t) h = ground arith

reset-IsWithin : (now : ℕ) (e : PolicyEngine) → IsWithin (reset now e)
unfolding reset Rate.reset Cost.reset
reset-IsWithin now e = record { rate = rate e.rate_limiter; cost = cost e.cost_tracker }
  where
    rate : (r : Option RateLimiter) → RateWithin (reset_rate now r)
    rate none = tt
    rate (some l) = omega arith

    cost : (c : Option CostTracker) → CostWithin (reset_cost c)
    cost none = tt
    cost (some t) = omega arith

Step-IsWithin : {e f : PolicyEngine} → Step e f → IsWithin e → IsWithin f
unfolding try_consume_rate record_cost
Step-IsWithin (rated now stage e) h = record {
  rate = rate_call-RateWithin now stage e.rate_limiter h.rate;
  cost = h.cost;
}
Step-IsWithin (charged amount stage e) h = record {
  rate = h.rate;
  cost = cost_call-CostWithin amount stage e.cost_tracker h.cost;
}
Step-IsWithin (restarted now e) h = reset-IsWithin now e

Reach-IsWithin : {e f : PolicyEngine} → Reach e f → IsWithin e → IsWithin f
Reach-IsWithin here h = h
Reach-IsWithin (next r s) h = Step-IsWithin s (Reach-IsWithin r h)

wire_rate :
    (now : ℕ) (limit : Option String) (r : Option RateLimiter)
    → wire (create_rate_limiter now) limit ≡ ok r
    → RateWithin r
unfolding wire create_rate_limiter
wire_rate now none none h = tt
wire_rate now none (some l) h = cc
wire_rate now (some limit) none h = tt
wire_rate now (some limit) (some l) h = ground (arith, create_state limit now {l = l})

wire_cost :
    (limit : Option String) (c : Option CostTracker)
    → wire create_cost_tracker limit ≡ ok c
    → CostWithin c
unfolding wire create_cost_tracker
wire_cost limit none h = tt
wire_cost none (some t) h = cc
wire_cost (some limit) (some t) h = ground arith

created-IsWithin :
    (now : ℕ) (policies : GlobalPolicies) {e : PolicyEngine}
    → create_policy_engine now policies ≡ ok e
    → IsWithin e
unfolding create_policy_engine
created-IsWithin now policies {e} h =
    elim (Result-cases (wire (create_rate_limiter now) policies.rate_limit)) [
      | inr (x, bad) ↦ absurd (ground arith)
      | inl (r, made) ↦ elim (Result-cases (wire create_cost_tracker policies.cost_limit)) [
        | inr (x, bad) ↦ absurd (ground arith)
        | inl (c, costed) ↦ record {
          rate = wire_rate now policies.rate_limit e.rate_limiter (ground arith);
          cost = wire_cost policies.cost_limit e.cost_tracker (ground arith);
        }
      ]
    ]

-- Whatever a run does with the engine that it created, in any order and at any times, the bucket
-- never holds more than its size and the total cost never passes its limit.
pub create_policy_engine-IsWithin :
    (now : ℕ) (policies : GlobalPolicies) {e f : PolicyEngine}
    → create_policy_engine now policies ≡ ok e
    → Reach e f
    → IsWithin f
create_policy_engine-IsWithin now policies h r = Reach-IsWithin r (created-IsWithin now policies h)
