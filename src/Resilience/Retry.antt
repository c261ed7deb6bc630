-- ===== src/Resilience/Retry.antt =====
-- src/providers/resilience/retry.ts. Times are whole milliseconds. The response headers are what the
-- two header parsers make of them: a wait, or nothing. `Math.random() * jitterMs` is an argument, and
-- so is whether the signal is aborted before each attempt. What the calls and the waits were is
-- returned beside the result, as the trace.
pub mod Laws
use Prim.Native.Nat.{min}
use open_thinking.Base.{
  ℕ, zero, suc, ◌+◌, ◌*◌, ◌^◌, Bool, true, false, Option, none, some, List, [], ◌∷◌, ◌++◌, eqb,
  ◌||◌, ltb, if◌then◌else◌,
}

pub record RetryConfig : Type 0 where
  pub max_retries : ℕ
  pub base_delay_ms : ℕ
  pub max_delay_ms : ℕ
  pub jitter_ms : ℕ

unfoldable pub default_retry_config : RetryConfig
default_retry_config = record {
  max_retries = 3;
  base_delay_ms = 1_000;
  max_delay_ms = 60_000;
  jitter_ms = 500;
}

unfoldable pub is_retriable_status : ℕ → Bool
is_retriable_status status = eqb status 429 || (eqb status 502 || eqb status 503)

-- What `parseRetryAfter` and `parseRateLimitReset` read in the headers of a response.
pub record Headers : Type 0 where
  pub retry_after : Option ℕ
  pub reset_after : Option ℕ

pub data AttemptResult (T : Type 0) : Type 0 where
  success : T → AttemptResult T
  failure : (retriable : Bool) → Option Headers → AttemptResult T
  aborted : AttemptResult T

unfoldable pub exponential : ℕ → RetryConfig → ℕ → ℕ
exponential attempt config jitter =
    min (config.base_delay_ms * 2 ^ attempt + jitter) config.max_delay_ms

unfoldable pub compute_delay : ℕ → RetryConfig → Option Headers → ℕ → ℕ
unfolding exponential
compute_delay attempt config none jitter = exponential attempt config jitter
compute_delay attempt config (some headers) jitter = elim headers.retry_after [
  | some ms ↦ min ms config.max_delay_ms
  | none ↦ elim headers.reset_after [
    | some ms ↦ min ms config.max_delay_ms
    | none ↦ exponential attempt config jitter
  ]
]

-- The world of one run: what each attempt returns, whether the signal is aborted when the attempt is
-- about to start, and the random jitter drawn after it.
pub record World (T : Type 0) : Type 0 where
  pub attempt : ℕ → AttemptResult T
  pub is_aborted : ℕ → Bool
  pub jitter : ℕ → ℕ

-- A call of `fn`, or a `sleep`.
pub data Event : Type 0 where
  called : ℕ → Event
  slept : ℕ → Event

-- What follows an attempt's result: return it, or wait and go on. `last` says that
-- `attempt === cfg.maxRetries`.
unfoldable pub after {ℓ} :
    {A : Type ℓ} {T : Type 0} → Bool → AttemptResult T → A → (Option Headers → A) → A
after last (success value) return again = return
after last aborted return again = return
after last (failure retriable meta) return again =
    if retriable then (if last then return else again meta) else return

module _ {T : Type 0} (world : World T) (config : RetryConfig) where
  -- The `for` loop, by the retries that are left: `attempt + left` is `maxRetries`.
  unfoldable pub retry_loop : ℕ → ℕ → List Event × AttemptResult T
  unfolding after compute_delay
  retry_loop attempt zero =
      if world.is_aborted attempt
      then ([], aborted)
      else (called attempt ∷ [], world.attempt attempt)
  retry_loop attempt (suc left) =
      let rest = retry_loop (suc attempt) left in
      if world.is_aborted attempt
      then ([], aborted)
      else after false (world.attempt attempt) (called attempt ∷ [], world.attempt attempt)
          (λ meta.
            let delay = compute_delay attempt config meta (world.jitter attempt) in
            (called attempt ∷ slept delay ∷ rest.0, rest.1))

  unfoldable pub with_retry : List Event × AttemptResult T
  unfolding retry_loop
  with_retry = retry_loop 0 config.max_retries
