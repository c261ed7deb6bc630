-- ===== src/Resilience/Window.antt =====
-- src/providers/resilience/rate-limiter.ts, createTpmLimiter: the tokens of the last minute. A call of
-- acquire returns the time that it waits. The clock is an argument; times are whole milliseconds, at
-- least a minute after the epoch.
pub mod Laws
use Prim.Native.Char.{code}
use Prim.Native.String
use open_thinking.Base.{
  ℕ, suc, String, ◌+◌, ◌-◌, ◌*◌, Bool, true, false, ◌&&◌, not, Option, none, some, List, [], ◌∷◌,
  ◌++◌, ◌==◌, eqb, leb, ltb, if◌then◌else◌,
}
use open_thinking.Base.Texts.{is_digit}

pub record TokenUsageEntry : Type 0 where
  pub timestamp : ℕ
  pub tokens : ℕ

pub record Window : Type 0 where
  pub tpm_limit : ℕ
  pub entries : List TokenUsageEntry

abbrev pub minute : ℕ
minute = 60_000

unfoldable pub create_window : ℕ → Window
create_window tpm = record { tpm_limit = tpm; entries = [] }

-- Entries at the front that are older than a minute are dropped.
unfoldable pub prune : ℕ → List TokenUsageEntry → List TokenUsageEntry
prune now [] = []
prune now (e ∷ entries) =
    let rest = prune now entries in if ltb (e.timestamp + minute) now then rest else e ∷ entries

unfoldable pub total : List TokenUsageEntry → ℕ
total [] = 0
total (e ∷ entries) = e.tokens + total entries

unfoldable pub current_window_usage : ℕ → Window → ℕ × Window
unfolding prune total
current_window_usage now w =
    let entries = prune now w.entries in (total entries, record w { entries = entries })

unfoldable pub record_tokens : (now tokens : ℕ) → Window → Window
record_tokens now tokens w = record w {
  entries = w.entries ++ record { timestamp = now; tokens = tokens } ∷ [];
}

unfoldable pub digits_from : Option ℕ → String → Option ℕ
digits_from acc String.[] = acc
digits_from acc (String.◌∷◌ c s) =
    let value : ℕ = elim acc [ none ↦ 0 | some n ↦ n ] in
    let rest = digits_from (some (value * 10 + (code c - b'0'))) s in
    if is_digit (code c) then rest else acc

-- `Number.parseInt(value, 10)`, with `none` for what is no number or below zero.
unfoldable pub parse_int : String → Option ℕ
unfolding digits_from
parse_int String.[] = none
parse_int (String.◌∷◌ c s) =
    let rest = parse_int s in
    if leb (code c) b' '
    then rest
    else if eqb (code c) b'+'
    then digits_from none s
    else digits_from none (String.◌∷◌ c s)

-- The limit that one header gives, when it differs.
unfoldable pub new_limit : ℕ → Option String → Option ℕ
unfolding parse_int
new_limit limit none = none
new_limit limit (some value) = elim (parse_int value) [
  | none ↦ none
  | some parsed ↦ if ltb 0 parsed && not (eqb parsed limit) then some parsed else none
]

abbrev pub limit_headers : List String
limit_headers = "x-ratelimit-limit-tokens" ∷ "anthropic-ratelimit-tokens-limit" ∷ []

-- The loop over the headers: the first that changes the limit ends it.
unfoldable pub calibrate : (String → Option String) → List String → Window → Window
unfolding new_limit
calibrate headers [] w = w
calibrate headers (h ∷ names) w = elim (new_limit w.tpm_limit (headers h)) [
  | none ↦ calibrate headers names w
  | some limit ↦ record w { tpm_limit = limit }
]

unfoldable pub update_from_headers : Option (String → Option String) → Window → Window
unfolding calibrate
update_from_headers none w = w
update_from_headers (some headers) w = calibrate headers limit_headers w

-- The time at which enough entries have aged out.
unfoldable pub wait_until : (tokens_to_free until : ℕ) → List TokenUsageEntry → ℕ
wait_until tokens_to_free until [] = until
wait_until tokens_to_free until (e ∷ entries) =
    let rest = wait_until (tokens_to_free - e.tokens) (e.timestamp + minute) entries in
    if eqb tokens_to_free 0 then until else rest

-- How long the call waits, unless it is aborted.
unfoldable pub acquire : (now estimated : ℕ) → Window → ℕ × Window
unfolding current_window_usage wait_until
acquire now estimated w =
    let (used, pruned) = current_window_usage now w in
    let until = wait_until (estimated + used - w.tpm_limit) 0 pruned.entries in
    if leb (estimated + used) w.tpm_limit then (0, pruned) else (until - now, pruned)
