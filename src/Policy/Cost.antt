-- ===== src/Policy/Cost.antt =====
-- src/policies/engine/policy-engine.ts, the cost tracker. An amount of money is a whole number of
-- nano-dollars, in which every price per million tokens of the pricing table with up to three
-- decimals is a whole number per token; the rounding of floating point is left out.
pub mod Laws
use Prim.Native.Char.{code}
use Prim.Native.String
use open_thinking.Base.{
  ℕ, String, ◌+◌, ◌-◌, ◌*◌, ◌/◌, List, [], ◌∷◌, Option, none, some, ltb, eqb, if◌then◌else◌, ◌==◌,
  Bool, true, false, ◌&&◌, ◌||◌,
}
use open_thinking.Base.Texts.{is_digit, decimal}
use open_thinking.Result.{Result, Void, ok, err}
use open_thinking.Errors.{PolicyError, cost_exceeded}
use open_thinking.Base.Texts.{split}

pub record CostTracker : Type 0 where
  pub max_cost : ℕ
  pub total_cost : ℕ

-- `[\d.]*`
unfoldable pub is_amount : String → Bool
is_amount String.[] = true
is_amount (String.◌∷◌ c s) = (is_digit (code c) || eqb (code c) b'.') && is_amount s

-- The digits behind the point; `place` is the worth of the next one, 0 behind the ninth.
unfoldable pub fraction : ℕ → String → ℕ
fraction place String.[] = 0
fraction place (String.◌∷◌ c s) = (code c - b'0') * place + fraction (place / 10) s

-- `Number.parseFloat` of such a text: what stands before the second point; `none` is NaN.
unfoldable pub parse_float : String → Option ℕ
unfolding split decimal fraction
parse_float s = elim (split b'.' s) [
  | [] ↦ none
  | whole ∷ [] ↦ if whole == "" then none else some (decimal whole * 1_000_000_000)
  | whole ∷ (part ∷ _) ↦
      if whole == "" && part == ""
      then none
      else some (decimal whole * 1_000_000_000 + fraction 100_000_000 part)
]

unfoldable pub strip_dollar : String → String
strip_dollar String.[] = String.[]
strip_dollar (String.◌∷◌ c s) = if eqb (code c) b'$' then s else String.◌∷◌ c s

abbrev is_period : String → Bool
is_period unit = unit == "run" || (unit == "hour" || unit == "day")

-- `^\$?([\d.]+)\/(run|hour|day)$`
unfoldable pub parse_cost_limit : String → Option ℕ
unfolding split is_amount parse_float strip_dollar
parse_cost_limit limit = elim (split b'/' limit) [
  | amount ∷ (unit ∷ []) ↦
      if is_amount (strip_dollar amount) && is_period unit
      then parse_float (strip_dollar amount)
      else none
  | _ ↦ none
]

unfoldable pub create_cost_tracker : String → Result CostTracker PolicyError
unfolding parse_cost_limit
create_cost_tracker limit = elim (parse_cost_limit limit) [
  | none ↦ err (record { code = cost_exceeded; stage_name = none })
  | some n ↦ ok (record { max_cost = n; total_cost = 0 })
]

unfoldable pub record_cost : ℕ → String → CostTracker → CostTracker × Result Void PolicyError
record_cost amount stage_name t =
    if ltb t.max_cost (t.total_cost + amount)
    then (t, err (record { code = cost_exceeded; stage_name = some stage_name }))
    else (record t { total_cost = t.total_cost + amount }, ok tt)

unfoldable pub reset : CostTracker → CostTracker
reset t = record t { total_cost = 0 }
