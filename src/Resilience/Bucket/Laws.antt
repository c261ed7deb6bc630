-- ===== src/Resilience/Bucket/Laws.antt =====
-- How many callers get a token over a run of the limiter, whatever happens in which order.
use native.Mathlib.Nat.{mul-le-mul_right, add-mul}
use native.Mathlib.Decide.{dec_lt}
use open_thinking.Base.{
  ℕ, ◌+◌, ◌-◌, ◌*◌, ◌≤◌, ◌≡◌, refl, sym, ap, ◌∙◌, inl, inr, Bool, true, false, List, [], ◌∷◌, arith,
  leb, ltb, leb→le, Bool-cases, length, is_empty,
}
use open_thinking.Resilience.Bucket.{
  token, Bucket, create_bucket, refill, serve, drain_queue, try_acquire, Acquired, resolved,
  rejected, waiting, enqueue, acquire, abort, available_tokens,
}

abbrev count_of : Acquired → ℕ
count_of resolved = 1
count_of rejected = 0
count_of waiting = 0

abbrev count_of_try : Bool → ℕ
count_of_try true = 1
count_of_try false = 0

-- The states that a limiter may be in, with the number of callers that got a token and the time. A
-- timer may fire at any time.
pub data Runs (start rpm : ℕ) : ℕ → ℕ → Bucket → Type 0 where
  created : Runs start rpm 0 start (create_bucket start rpm)
  acquired :
      {granted now : ℕ} {b : Bucket}
      → Runs start rpm granted now b
      → (at id : ℕ) (aborted : Bool) → now ≤ at
      → Runs start rpm
          (granted + count_of (acquire at id aborted b).0)
          at
          (acquire at id aborted b).1
  tried :
      {granted now : ℕ} {b : Bucket}
      → Runs start rpm granted now b
      → (at : ℕ) → now ≤ at
      → Runs start rpm (granted + count_of_try (try_acquire at b).0) at (try_acquire at b).1
  fired :
      {granted now : ℕ} {b : Bucket}
      → Runs start rpm granted now b
      → (at : ℕ) → now ≤ at
      → Runs start rpm (granted + length (drain_queue at b).0) at (drain_queue at b).1
  looked :
      {granted now : ℕ} {b : Bucket}
      → Runs start rpm granted now b
      → (at : ℕ) → now ≤ at
      → Runs start rpm granted at (available_tokens at b).1
  gave_up :
      {granted now : ℕ} {b : Bucket}
      → Runs start rpm granted now b
      → (id : ℕ) → Runs start rpm granted now (abort id b)

-- What the tokens that were granted, and those that are left, are worth.
record IsBounded (start rpm granted now : ℕ) (b : Bucket) : Type 0 where
  pub same : b.rpm ≡ rpm
  pub past : b.last_refill ≤ now
  pub worth : granted * token + b.parts + start * rpm ≤ rpm * token + b.last_refill * rpm

module _ (start rpm : ℕ) where
  gained : (a b r : ℕ) → a ≤ b → (b - a) * r + a * r ≡ b * r
  gained a b r h =
      let k : b - a + a ≡ b = omega arith in sym (add-mul (b - a) a r) ∙ ap (λ n. n * r) k

  refill-IsBounded :
      (granted now at : ℕ) (b : Bucket)
      → now ≤ at
      → IsBounded start rpm granted now b
      → IsBounded start rpm granted at (refill at b)
  unfolding refill
  refill-IsBounded granted now at b later i = elim (Bool-cases (ltb b.last_refill at)) [
    | inr f ↦
        rw (refill, f)
          (record { same = i.same; past = (let p = i.past in omega arith); worth = i.worth })
    | inl t ↦
        rw (refill, t)
          (record {
            same = i.same;
            past = omega arith;
            worth =
                (let w = i.worth in
                  let g = rw i.same at (gained b.last_refill at b.rpm (omega arith)) in
                  rw i.same (omega (arith, w, g)));
          })
  ]

serve-parts :
    (parts : ℕ) (queue : List ℕ)
    → (serve parts queue).2 + length (serve parts queue).0 * token ≡ parts
unfolding serve
serve-parts parts [] = omega arith
serve-parts parts (id ∷ queue) = elim (Bool-cases (leb token parts)) [
  | inl t ↦
      let rest = serve-parts (parts - token) queue in
      let le = leb→le token parts t in rw t (omega (arith, rest, le))
  | inr f ↦ rw f (omega arith)
]

-- A drain serves out of the refilled parts.
drain_queue-parts :
    (now : ℕ) (b : Bucket)
    → let out = drain_queue now b in
      (out.1.parts + length out.0 * token ≡ (refill now b).parts)
      × (out.1.rpm ≡ (refill now b).rpm)
      × (out.1.last_refill ≡ (refill now b).last_refill)
unfolding drain_queue
drain_queue-parts now b =
    let full = refill now b in
    let e = serve-parts full.parts full.queue in
    elim (Bool-cases (is_empty (serve full.parts full.queue).1)) [
      | inl t ↦ rw (drain_queue, t) (e, refl, refl)
      | inr f ↦ rw (drain_queue, f) (e, refl, refl)
    ]

try_acquire-parts :
    (now : ℕ) (b : Bucket)
    → let out = try_acquire now b in
      (out.1.parts + count_of_try out.0 * token ≡ (refill now b).parts)
      × (out.1.rpm ≡ (refill now b).rpm)
      × (out.1.last_refill ≡ (refill now b).last_refill)
unfolding try_acquire
try_acquire-parts now b = elim (Bool-cases (leb token (refill now b).parts)) [
  | inl t ↦
      let le = leb→le token (refill now b).parts t in rw (try_acquire, t) (omega arith, refl, refl)
  | inr f ↦ rw (try_acquire, f) (omega arith, refl, refl)
]

acquire-parts :
    (now id : ℕ) (aborted : Bool) (b : Bucket)
    → let out = acquire now id aborted b in
      (out.1.parts + count_of out.0 * token ≡ (refill now b).parts)
      × (out.1.rpm ≡ (refill now b).rpm)
      × (out.1.last_refill ≡ (refill now b).last_refill)
unfolding acquire enqueue
acquire-parts now id aborted b =
    let (e, r, l) = try_acquire-parts now b in
    elim (Bool-cases (try_acquire now b).0) [
      | inl t ↦ let e' = rw t at e in rw (acquire, t) (e', r, l)
      | inr f ↦ elim (Bool-cases aborted) [
        | inl a ↦ let e' = rw f at e in rw (acquire, f, a) (e', r, l)
        | inr a ↦ elim (Bool-cases (is_empty (try_acquire now b).1.queue)) [
          | inl n ↦ let e' = rw f at e in rw (acquire, f, a, enqueue, n) (e', r, l)
          | inr n ↦ let e' = rw f at e in rw (acquire, f, a, enqueue, n) (e', r, l)
        ]
      ]
    ]

module _ (start rpm : ℕ) where
  paid :
      (granted more now : ℕ) (b b' : Bucket)
      → (b'.parts + more * token ≡ b.parts) × (b'.rpm ≡ b.rpm) × (b'.last_refill ≡ b.last_refill)
      → IsBounded start rpm granted now b
      → IsBounded start rpm (granted + more) now b'
  paid granted more now b b' (e, r, l) i = record {
    same = r ∙ i.same;
    past = rw l i.past;
    worth = (let w = i.worth in rw l (omega (arith, w, e)));
  }

  Runs-IsBounded :
      {granted now : ℕ} {b : Bucket}
      → Runs start rpm granted now b
      → IsBounded start rpm granted now b
  unfolding create_bucket abort available_tokens
  Runs-IsBounded created = record { same = refl; past = omega arith; worth = omega arith }
  Runs-IsBounded (acquired {granted = granted} {now = now} {b = b} r at id aborted later) =
      paid granted _ at (refill at b) _ (acquire-parts at id aborted b)
        (refill-IsBounded start rpm granted now at b later (Runs-IsBounded r))
  Runs-IsBounded (tried {granted = granted} {now = now} {b = b} r at later) =
      paid granted _ at (refill at b) _ (try_acquire-parts at b)
        (refill-IsBounded start rpm granted now at b later (Runs-IsBounded r))
  Runs-IsBounded (fired {granted = granted} {now = now} {b = b} r at later) =
      paid granted _ at (refill at b) _ (drain_queue-parts at b)
        (refill-IsBounded start rpm granted now at b later (Runs-IsBounded r))
  Runs-IsBounded (looked {granted = granted} {now = now} {b = b} r at later) =
      refill-IsBounded start rpm granted now at b later (Runs-IsBounded r)
  Runs-IsBounded (gave_up r id) =
      let i = Runs-IsBounded r in record { same = i.same; past = i.past; worth = i.worth }

-- Until the bucket is reset, however calls, timers and aborts follow each other: the callers that got
-- a token since the bucket was created at `start` are at most `rpm` and the tokens that `rpm` tokens a
-- minute make in the time since.
pub granted-le-rate :
    (start rpm granted now : ℕ) (b : Bucket)
    → Runs start rpm granted now b
    → granted * 60_000 ≤ rpm * 60_000 + (now - start) * rpm
granted-le-rate start rpm granted now b r =
    let i = Runs-IsBounded start rpm r in
    let w = i.worth in
    let past : b.last_refill * rpm ≤ now * rpm = mul-le-mul_right rpm i.past in
    elim (dec_lt now start) [
      | yes early ↦
          let e : now * rpm ≤ start * rpm = mul-le-mul_right rpm (omega arith) in
          omega (arith, w, past, e)
      | no later ↦ let g = gained start rpm start now rpm (omega arith) in omega (arith, w, past, g)
    ]
