-- ===== src/Resilience/Bucket.antt =====
-- src/providers/resilience/rate-limiter.ts, createRateLimiter. Tokens are counted in parts: a token is
-- 60000 parts, so the bucket gains `rpm` parts in a millisecond and nothing is rounded; the source counts
-- in doubles, whose rounding may leave a bucket just under a token when a timer fires, and the timer
-- that the drain sets then serves the caller a millisecond later. A caller that waits has an id. A pending timer is the time at which it fires, and the caller whose cleanup clears
-- it; the timers that a drain sets belong to nobody. The clock is an argument.
pub mod Laws
pub mod Progress
use Prim.Native.Nat.{min, max}
use open_thinking.Base.{
  ℕ, suc, ◌+◌, ◌-◌, ◌*◌, ◌/◌, Bool, true, false, not, Option, none, some, List, [], ◌∷◌, ◌++◌, eqb,
  leb, ltb, if◌then◌else◌, is_empty, keep, any,
}

-- The parts of one token.
abbrev pub token : ℕ
token = 60_000

pub record Timer : Type 0 where
  pub due : ℕ
  pub owner : Option ℕ

pub record Bucket : Type 0 where
  pub rpm : ℕ
  pub parts : ℕ
  pub last_refill : ℕ
  pub queue : List ℕ
  pub timers : List Timer

unfoldable pub create_bucket : (now rpm : ℕ) → Bucket
create_bucket now rpm = record {
  rpm = rpm;
  parts = rpm * token;
  last_refill = now;
  queue = [];
  timers = [];
}

unfoldable pub refill : ℕ → Bucket → Bucket
refill now b =
    if ltb b.last_refill now
    then record b {
      parts = min (b.rpm * token) (b.parts + (now - b.last_refill) * b.rpm);
      last_refill = now;
    }
    else b

-- The deficit over the rate, rounded up.
unfoldable pub ms_until_token : Bucket → ℕ
ms_until_token b = if leb token b.parts then 0 else (token - b.parts + (b.rpm - 1)) / b.rpm

unfoldable pub is_owned : ℕ → Timer → Bool
is_owned id timer = elim timer.owner [ none ↦ false | some o ↦ eqb o id ]

-- `clearTimeout(timer)` for the callers.
unfoldable pub clear_timers : List ℕ → List Timer → List Timer
unfolding is_owned
clear_timers ids timers = keep (λ t. not (any (λ id. is_owned id t) ids)) timers

-- The loop of drainQueue: the callers that get a token, those that do not, and the parts left.
unfoldable pub serve : ℕ → List ℕ → List ℕ × List ℕ × ℕ
serve parts [] = ([], [], parts)
serve parts (id ∷ queue) =
    let (granted, waiting, left) = serve (parts - token) queue in
    if leb token parts then (id ∷ granted, waiting, left) else ([], id ∷ queue, parts)

-- The callers that are resolved, and the state.
unfoldable pub drain_queue : ℕ → Bucket → List ℕ × Bucket
unfolding refill serve clear_timers ms_until_token
drain_queue now b =
    let full = refill now b in
    let (granted, waiting, left) = serve full.parts full.queue in
    let served : Bucket = record full {
      parts = left;
      queue = waiting;
      timers = clear_timers granted full.timers;
    } in
    let next : Timer = record { due = now + max 1 (ms_until_token served); owner = none } in
    if is_empty waiting
    then (granted, served)
    else (granted, record served { timers = served.timers ++ next ∷ [] })

unfoldable pub try_acquire : ℕ → Bucket → Bool × Bucket
unfolding refill
try_acquire now b =
    let full = refill now b in
    if leb token full.parts
    then (true, record full { parts = full.parts - token })
    else (false, full)

-- How a call of acquire goes on.
pub data Acquired : Type 0 where
  resolved rejected waiting : Acquired

-- The caller joins the queue; the first one sets a timer, which it owns.
unfoldable pub enqueue : (now id : ℕ) → Bucket → Bucket
unfolding ms_until_token
enqueue now id b =
    let timer : Timer = record { due = now + max 1 (ms_until_token b); owner = some id } in
    let queued : Bucket = record b { queue = b.queue ++ id ∷ [] } in
    if is_empty b.queue then record queued { timers = b.timers ++ timer ∷ [] } else queued

unfoldable pub acquire : (now id : ℕ) → (aborted : Bool) → Bucket → Acquired × Bucket
unfolding try_acquire enqueue
acquire now id aborted b =
    let (got, b') = try_acquire now b in
    if got then (resolved, b') else if aborted then (rejected, b') else (waiting, enqueue now id b')

-- The abort of a caller that waits.
unfoldable pub abort : ℕ → Bucket → Bucket
unfolding clear_timers
abort id b = record b {
  queue = keep (λ w. not (eqb w id)) b.queue;
  timers = clear_timers (id ∷ []) b.timers;
}

unfoldable pub available_tokens : ℕ → Bucket → ℕ × Bucket
unfolding refill
available_tokens now b = let full = refill now b in (full.parts, full)

unfoldable pub reset : ℕ → Bucket → Bucket
reset now b = record b { parts = b.rpm * token; last_refill = now }
