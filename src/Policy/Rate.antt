-- ===== src/Policy/Rate.antt =====
-- src/policies/engine/policy-engine.ts, the rate limiter of a pipeline run. The clock's reading is
-- an argument. `Math.floor((elapsed / windowMs) * maxTokens)` is taken as the exact quotient; a
-- clock that runs backwards gives no tokens, here as there, since `-` stops at 0.
pub mod Laws
use Prim.Native.Nat.{min}
use open_thinking.Base.{
  ℕ, String, ◌+◌, ◌-◌, ◌*◌, ◌/◌, List, [], ◌∷◌, Option, none, some, ltb, if◌then◌else◌, ◌==◌,
}
use open_thinking.Base.Texts.{all_digits, decimal}
use open_thinking.Result.{Result, Void, ok, err}
use open_thinking.Errors.{PolicyError, rate_exceeded}
use open_thinking.Base.Texts.{split}

pub record RateLimiter : Type 0 where
  pub max_tokens : ℕ
  pub window_ms : ℕ
  pub tokens : ℕ
  pub last_refill : ℕ

-- The table of windows.
unfoldable pub window_of : String → Option ℕ
window_of unit =
    if unit == "second"
    then some 1_000
    else if unit == "minute"
    then some 60_000
    else if unit == "hour"
    then some 3_600_000
    else if unit == "day"
    then some 86_400_000
    else none

-- `^(\d+)\/(second|minute|hour|day)$`: two parts at the slash, digits and a unit.
unfoldable pub parse_rate_limit : String → Option (ℕ × ℕ)
unfolding split window_of all_digits decimal
parse_rate_limit limit = elim (split b'/' limit) [
  | n ∷ (unit ∷ []) ↦
      if all_digits n
      then elim (window_of unit) [ none ↦ none | some w ↦ some (decimal n, w) ]
      else none
  | _ ↦ none
]

unfoldable pub create_rate_limiter : ℕ → String → Result RateLimiter PolicyError
unfolding parse_rate_limit
create_rate_limiter now limit = elim (parse_rate_limit limit) [
  | none ↦ err (record { code = rate_exceeded; stage_name = none })
  | some (n, w) ↦ ok (record { max_tokens = n; window_ms = w; tokens = n; last_refill = now })
]

unfoldable pub refill : ℕ → RateLimiter → RateLimiter
refill now l =
    let refill_amount = (now - l.last_refill) * l.max_tokens / l.window_ms in
    if ltb 0 refill_amount
    then record l { tokens = min l.max_tokens (l.tokens + refill_amount); last_refill = now }
    else l

-- After the refill: `tokens > 0` and `tokens--`, or the error.
unfoldable pub consume : String → RateLimiter → RateLimiter × Result Void PolicyError
consume stage_name l =
    if ltb 0 l.tokens
    then (record l { tokens = l.tokens - 1 }, ok tt)
    else (l, err (record { code = rate_exceeded; stage_name = some stage_name }))

unfoldable pub try_consume : ℕ → String → RateLimiter → RateLimiter × Result Void PolicyError
unfolding refill consume
try_consume now stage_name l = consume stage_name (refill now l)

unfoldable pub reset : ℕ → RateLimiter → RateLimiter
reset now l = record l { tokens = l.max_tokens; last_refill = now }
