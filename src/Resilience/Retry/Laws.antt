-- ===== src/Resilience/Retry/Laws.antt =====
-- How often `withRetry` calls, how long it waits, and what it returns.
use open_thinking.Base.{
  ℕ, zero, suc, ◌+◌, ◌≤◌, ◌≡◌, refl, ◌≢◌, ◌⊎◌, inl, inr, true, false, Option, none, some, List, [],
  ◌∷◌, arith, Bool-cases,
}
use open_thinking.Resilience.Retry.{
  RetryConfig, Headers, AttemptResult, success, failure, aborted, exponential, compute_delay, World,
  Event, called, slept, after, retry_loop, with_retry,
}

compute_delay-le :
    (attempt : ℕ) (config : RetryConfig) (meta : Option Headers) (jitter : ℕ)
    → compute_delay attempt config meta jitter ≤ config.max_delay_ms
unfolding compute_delay exponential
compute_delay-le attempt config none jitter = omega arith
compute_delay-le attempt config (some headers) jitter = ground arith

-- The events of a run: calls at successive attempts, each but the last followed by a wait of at most
-- the cap.
abbrev pub IsPaced : ℕ → ℕ → List Event → Type 0
IsPaced attempt cap [] = Unit {0}
IsPaced attempt cap (slept ms ∷ events) = ⊥
IsPaced attempt cap (called n ∷ []) = n ≡ attempt
IsPaced attempt cap (called n ∷ (called m ∷ events)) = ⊥
IsPaced attempt cap (called n ∷ (slept ms ∷ events)) =
    (n ≡ attempt) × (ms ≤ cap) × IsPaced (suc attempt) cap events

abbrev pub calls : List Event → ℕ
calls [] = 0
calls (called n ∷ events) = suc (calls events)
calls (slept ms ∷ events) = calls events

-- What a run must return, by the retries that are left: the first result that is no retriable
-- failure, the last result, or the abort that stops it.
pub data Returns {T : Type 0} (world : World T) : ℕ → ℕ → AttemptResult T → Type 0 where
  stopped : {n left : ℕ} → world.is_aborted n ≡ true → Returns world n left aborted
  final :
      {n left : ℕ} {r : AttemptResult T}
      → world.is_aborted n ≡ false
      → world.attempt n ≡ r
      → ((meta : Option Headers) → r ≢ failure true meta) ⊎ (left ≡ 0)
      → Returns world n left r
  retried :
      {n left : ℕ} {r : AttemptResult T} (meta : Option Headers)
      → world.is_aborted n ≡ false
      → world.attempt n ≡ failure true meta
      → Returns world (suc n) left r
      → Returns world n (suc left) r

after_cases :
    {A T : Type 0} (r : AttemptResult T) (return : A) (again : Option Headers → A)
    → ((meta : Option Headers) × (r ≡ failure true meta)
        × (after false r return again ≡ again meta))
      ⊎ (((meta : Option Headers) → r ≢ failure true meta) × (after false r return again ≡ return))
unfolding after
after_cases (success value) return again = inr ((λ meta. ground arith), refl)
after_cases (failure true meta) return again = inl (meta, refl, refl)
after_cases (failure false meta) return again = inr ((λ meta'. ground arith), refl)
after_cases aborted return again = inr ((λ meta. ground arith), refl)

module _ {T : Type 0} (world : World T) (config : RetryConfig) where
  -- One round: the abort, a result that is returned, or a wait before the next round.
  abbrev Rounds : ℕ → ℕ → List Event × AttemptResult T → Type 0
  Rounds attempt left out =
      ((world.is_aborted attempt ≡ true) × (out ≡ ([], aborted)))
      ⊎ ((world.is_aborted attempt ≡ false)
          × ((meta : Option Headers) → world.attempt attempt ≢ failure true meta)
          × (out ≡ (called attempt ∷ [], world.attempt attempt)))
      ⊎ ((meta : Option Headers) × (world.is_aborted attempt ≡ false)
          × (world.attempt attempt ≡ failure true meta)
          × (out ≡ (
            called attempt
                ∷ slept (compute_delay attempt config meta (world.jitter attempt))
                ∷ (retry_loop world config (suc attempt) left).0,
            (retry_loop world config (suc attempt) left).1,
          )))

  retry_loop-Rounds :
      (attempt left : ℕ) → Rounds attempt left (retry_loop world config attempt (suc left))
  unfolding retry_loop
  retry_loop-Rounds attempt left = elim (Bool-cases (world.is_aborted attempt)) [
    | inl a ↦ inl (a, rw a)
    | inr a ↦ elim (after_cases (world.attempt attempt) return wait) [
      | inl (meta, e, q) ↦ inr (inr (meta, a, e, rw a q))
      | inr (n, q) ↦ inr (inl (a, n, rw a q))
    ]
  ]
    where
      return : List Event × AttemptResult T
      return = (called attempt ∷ [], world.attempt attempt)

      wait : Option Headers → List Event × AttemptResult T
      wait meta = (
        called attempt
            ∷ slept (compute_delay attempt config meta (world.jitter attempt))
            ∷ (retry_loop world config (suc attempt) left).0,
        (retry_loop world config (suc attempt) left).1,
      )

  retry_loop-calls : (attempt left : ℕ) → calls (retry_loop world config attempt left).0 ≤ suc left
  retry_loop-calls attempt zero = unfold retry_loop in ground arith
  retry_loop-calls attempt (suc left) =
      ground (arith, retry_loop-Rounds attempt left, retry_loop-calls (suc attempt) left)

  retry_loop-IsPaced :
      (attempt left : ℕ)
      → IsPaced attempt config.max_delay_ms (retry_loop world config attempt left).0
  retry_loop-IsPaced attempt zero =
      unfold retry_loop in
      elim (Bool-cases (world.is_aborted attempt)) [ inl a ↦ rw a tt | inr a ↦ rw a refl ]
  retry_loop-IsPaced attempt (suc left) = elim (retry_loop-Rounds attempt left) [
    | inl (a, e) ↦ rw e tt
    | inr (inl (a, n, e)) ↦ rw e refl
    | inr (inr (meta, a, f, e)) ↦ rw e (
      refl,
      compute_delay-le attempt config meta (world.jitter attempt),
      retry_loop-IsPaced (suc attempt) left,
    )
  ]

  retry_loop-Returns :
      (attempt left : ℕ) → Returns world attempt left (retry_loop world config attempt left).1
  retry_loop-Returns attempt zero =
      unfold retry_loop in
      elim (Bool-cases (world.is_aborted attempt)) [
        | inl a ↦ rw a (stopped a)
        | inr a ↦ rw a (final a refl (inr refl))
      ]
  retry_loop-Returns attempt (suc left) = elim (retry_loop-Rounds attempt left) [
    | inl (a, e) ↦ rw e (stopped a)
    | inr (inl (a, n, e)) ↦ rw e (final a refl (inl n))
    | inr (inr (meta, a, f, e)) ↦ rw e (retried meta a f (retry_loop-Returns (suc attempt) left))
  ]

-- A run calls its function at most maxRetries + 1 times, at the attempts 0, 1, 2 and so on with one
-- wait of at most maxDelayMs between two calls, and returns the first result that is no retriable
-- failure, the last attempt's result, or the abort that came before an attempt.
pub with_retry-IsPaced :
    {T : Type 0} (world : World T) (config : RetryConfig)
    → (calls (with_retry world config).0 ≤ config.max_retries + 1)
      × IsPaced 0 config.max_delay_ms (with_retry world config).0
      × Returns world 0 config.max_retries (with_retry world config).1
unfolding with_retry
with_retry-IsPaced world config = (
  (let c = retry_loop-calls world config 0 config.max_retries in omega arith),
  retry_loop-IsPaced world config 0 config.max_retries,
  retry_loop-Returns world config 0 config.max_retries,
)
