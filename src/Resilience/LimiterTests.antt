-- ===== src/Resilience/LimiterTests.antt =====
-- The limiters at concrete inputs: a bucket of one token a minute with callers that wait, and a window
-- of a hundred tokens.
use open_thinking.Base.{◌+◌, ◌-◌, ◌*◌, ◌≤◌, ◌≡◌, refl, false, none, some, [], ◌∷◌, arith}
use open_thinking.Resilience.Bucket
use open_thinking.Resilience.Bucket.{Bucket, Timer, create_bucket, drain_queue, abort}
use open_thinking.Resilience.Bucket.Laws.{Runs, created, acquired, fired, granted-le-rate}
use open_thinking.Resilience.Window
use open_thinking.Resilience.Window.{
  Window, minute, current_window_usage, update_from_headers, parse_int,
}
use open_thinking.Resilience.Window.Laws.{acquire-fits}

-- At time 0 the first caller gets the token, and the callers 2 and 3 wait.
abbrev one_waits : Bucket
one_waits = (Bucket.acquire 0 2 false (Bucket.acquire 0 1 false (create_bucket 0 1)).1).1

abbrev two_wait : Bucket
two_wait = (Bucket.acquire 0 3 false one_waits).1

abbrev both_waiting : Bucket
both_waiting = record {
  rpm = 1;
  parts = 0;
  last_refill = 0;
  queue = 2 ∷ 3 ∷ [];
  timers = record { due = 60_000; owner = some 2 } ∷ [];
}

two_wait-eq : two_wait ≡ both_waiting
unfolding Bucket.acquire create_bucket
two_wait-eq = refl

-- When the timer fires, the first of them gets a token, and a timer is set for the other.
fired-eq : drain_queue 60_000 both_waiting ≡ (
  2 ∷ [],
  record both_waiting {
    last_refill = 60_000;
    queue = 3 ∷ [];
    timers = record { due = 120_000; owner = none } ∷ [];
  },
)
unfolding drain_queue
fired-eq = refl

-- When the caller that owns the timer gives up, the other one waits without a timer.
stranded : abort 2 both_waiting ≡ record both_waiting { queue = 3 ∷ []; timers = [] }
unfolding abort
stranded = refl

one_minute : Runs 0 1 2 60_000 (drain_queue 60_000 one_waits).1
unfolding Bucket.acquire drain_queue create_bucket
one_minute =
    fired (acquired (acquired created 0 1 false (omega arith)) 0 2 false (omega arith)) 60_000
      (omega arith)

granted-le-rate_example : 2 * 60_000 ≤ 1 * 60_000 + (60_000 - 0) * 1
granted-le-rate_example = granted-le-rate 0 1 2 60_000 (drain_queue 60_000 one_waits).1 one_minute

-- The caller 4 joins after the drain and the caller 3 gives up.
abbrev later : Bucket
later = abort 3 (Bucket.acquire 60_001 4 false (drain_queue 60_000 both_waiting).1).1

abbrev busy : Window
busy = record {
  tpm_limit = 100;
  entries =
      record { timestamp = 70_000; tokens = 60 } ∷ record { timestamp = 80_000; tokens = 30 } ∷ [];
}

waits : (Window.acquire 90_000 50 busy).0 ≡ 40_000
unfolding Window.acquire
waits = refl

parse_int-header : parse_int " 200000 tokens" ≡ some 200_000
unfolding parse_int
parse_int-header = refl

acquire-fits_example :
    ((Window.acquire 90_000 50 busy).0 ≤ minute)
    × (50 + (current_window_usage 130_001 (Window.acquire 90_000 50 busy).1).0 ≤ 100)
unfolding Window.acquire
acquire-fits_example =
    acquire-fits 90_000 50 130_001 busy ((omega arith, tt), (tt, tt))
      (omega arith, (omega arith, tt)) (omega arith) (omega arith)
