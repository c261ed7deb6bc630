-- ===== src/Resilience/Bucket/Progress.antt =====
-- Callers that wait are served in turn, and no caller is left behind without a timer. Nothing here
-- depends on how exactly the tokens are counted.
use open_thinking.Base.{ℕ, ◌<◌, ◌≡◌, ◌⊎◌, Bool, none, List, [], ◌++◌, Elem}
use open_thinking.Resilience.Bucket.{
  token, Timer, Bucket, try_acquire, acquire, abort, available_tokens,
}

-- What serving comes to: the granted callers were in front, and a caller is only left waiting when
-- there is no token left.
pub record IsServed (parts : ℕ) (queue granted waiting : List ℕ) (left : ℕ) : Type 0 where
  pub in_turn : granted ++ waiting ≡ queue
  pub used_up : (waiting ≡ []) ⊎ (left < token)

-- What may happen until a timer fires: callers join, try, look and give up.
pub data Meanwhile (b : Bucket) : Bucket → Type 0 where
  nothing : Meanwhile b b
  joined :
      {b' : Bucket}
      → Meanwhile b b'
      → (at id : ℕ) (aborted : Bool) → Meanwhile b (acquire at id aborted b').1
  tried : {b' : Bucket} → Meanwhile b b' → (at : ℕ) → Meanwhile b (try_acquire at b').1
  looked : {b' : Bucket} → Meanwhile b b' → (at : ℕ) → Meanwhile b (available_tokens at b').1
  gave_up : {b' : Bucket} → Meanwhile b b' → (id : ℕ) → Meanwhile b (abort id b')

-- A timer that fires later and that no caller owns.
abbrev pub HasTimer : ℕ → Bucket → Type 0
HasTimer now b = (t : Timer) × (t.owner ≡ none) × (now < t.due) × Elem t b.timers
