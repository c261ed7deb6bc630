-- ===== src/Resilience/Tests.antt =====
-- A run that is refused twice with a Retry-After of two minutes and then succeeds.
use open_thinking.Base.{ℕ, zero, suc, ◌+◌, ◌≤◌, ◌≡◌, refl, true, false, none, some, [], ◌∷◌}
use open_thinking.Resilience.Retry.{
  World, success, failure, default_retry_config, with_retry, called, slept,
}
use open_thinking.Resilience.Retry.Laws.{calls, IsPaced, Returns, with_retry-IsPaced}

abbrev busy : World ℕ
busy = record {
  attempt = λ n. elim n [
    | zero ↦ failure true (some (record { retry_after = some 120_000; reset_after = none }))
    | suc zero ↦ failure true none
    | suc (suc m) ↦ success 7
  ];
  is_aborted = λ n. false;
  jitter = λ n. 10;
}

with_retry-busy :
    with_retry busy default_retry_config
    ≡ (called 0 ∷ slept 60_000 ∷ called 1 ∷ slept 2_010 ∷ called 2 ∷ [], success 7)
unfolding with_retry default_retry_config
with_retry-busy = refl

with_retry-IsPaced_example :
    (calls (with_retry busy default_retry_config).0 ≤ 3 + 1)
    × IsPaced 0 60_000 (with_retry busy default_retry_config).0
    × Returns busy 0 3 (with_retry busy default_retry_config).1
unfolding default_retry_config
with_retry-IsPaced_example = with_retry-IsPaced busy default_retry_config
