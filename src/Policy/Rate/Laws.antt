-- ===== src/Policy/Rate/Laws.antt =====
-- The rate limiter: what it grants over a run of calls, and when it grants.
use Prim.Native.Nat.{min}
use native.Mathlib.Nat.{div-mul-le_self, mul-le-mul_right, le-div_iff_mul-le, pos_of_div-pos}
use native.Mathlib.Decide.{dec_lt}
use open_thinking.Base.{
  ℕ, String, ◌+◌, ◌-◌, ◌*◌, ◌/◌, ◌≤◌, ◌<◌, ◌≡◌, refl, ap, some, ◌∙◌, ◌↔◌, ◌⊎◌, inl, inr, List, [],
  ◌∷◌, arith, All, Option-cases,
}
use open_thinking.Result.{Result, Void, ok, err}
use open_thinking.Errors.{PolicyError, rate_exceeded}
use open_thinking.Policy.Rate.{
  RateLimiter, create_rate_limiter, parse_rate_limit, refill, consume, try_consume,
}

abbrev amount : ℕ → RateLimiter → ℕ
amount now l = (now - l.last_refill) * l.max_tokens / l.window_ms

abbrev refilled : ℕ → RateLimiter → RateLimiter
refilled now l = record l { tokens = min l.max_tokens (l.tokens + amount now l); last_refill = now }

refill_cases :
    (now : ℕ) (l : RateLimiter)
    → ((0 < amount now l) × (refill now l ≡ refilled now l))
      ⊎ ((amount now l ≡ 0) × (refill now l ≡ l))
unfolding refill
refill_cases now l = ground arith

amount_pos : (now : ℕ) (l : RateLimiter) → 0 < amount now l → l.last_refill ≤ now
amount_pos now l h =
    let p : 0 < (now - l.last_refill) * l.max_tokens = pos_of_div-pos l.window_ms h in grind arith

-- What two states have in common, and what the later one's tokens are worth at most.
record Worth (l l' : RateLimiter) (granted : ℕ) : Type 0 where
  same_max : l'.max_tokens ≡ l.max_tokens
  same_window : l'.window_ms ≡ l.window_ms
  later : l.last_refill ≤ l'.last_refill
  worth :
      (l'.tokens + granted) * l.window_ms + l.last_refill * l.max_tokens
      ≤ l.tokens * l.window_ms + l'.last_refill * l.max_tokens

refilled_worth :
    (t a w m e x y n : ℕ)
    → t ≤ x + a
    → a * w ≤ e * m
    → e + y ≡ n
    → (t + 0) * w + y * m ≤ x * w + n * m
refilled_worth t a w m e x y n h k s =
    omega (arith, mul-le-mul_right w h, k, ap (λ (z : ℕ). z * m) s)

refill-Worth : (now : ℕ) (l : RateLimiter) → Worth l (refill now l) 0
refill-Worth now l = elim (refill_cases now l) [
  | inl (p, e) ↦ rw e (record {
    same_max = refl;
    same_window = refl;
    later = amount_pos now l p;
    worth =
        refilled_worth _ (amount now l) l.window_ms l.max_tokens (now - l.last_refill) l.tokens
          l.last_refill now (omega arith) (div-mul-le_self _ l.window_ms)
          (let q = amount_pos now l p in omega arith);
  })
  | inr (_, e) ↦
      rw e
        (record { same_max = refl; same_window = refl; later = omega arith; worth = omega arith })
]

-- 1 for a call that is allowed, 0 for one that is refused.
abbrev pub allowed : Result Void PolicyError → ℕ
allowed (ok _) = 1
allowed (err _) = 0

consume_cases :
    (stage : String) (l : RateLimiter)
    → ((0 < l.tokens) × (consume stage l ≡ (record l { tokens = l.tokens - 1 }, ok tt)))
      ⊎ ((l.tokens ≡ 0)
          × (consume stage l ≡ (l, err (record { code = rate_exceeded; stage_name = some stage }))))
unfolding consume
consume_cases stage l = ground arith

consume-Worth :
    (stage : String) (l : RateLimiter) → Worth l (consume stage l).0 (allowed (consume stage l).1)
consume-Worth stage l = elim (consume_cases stage l) [
  | inl (p, e) ↦
      let q : l.tokens - 1 + 1 ≡ l.tokens = omega arith in
      rw e (record {
        same_max = refl;
        same_window = refl;
        later = omega arith;
        worth = omega (arith, ap (λ (z : ℕ). z * l.window_ms) q);
      })
  | inr (z, e) ↦
      rw e
        (record { same_max = refl; same_window = refl; later = omega arith; worth = omega arith })
]

Worth-trans :
    (l l' l'' : RateLimiter) (m n k : ℕ) → Worth l l' m → Worth l' l'' n → m + n ≡ k → Worth l l'' k
Worth-trans l l' l'' m n k a b e = record {
  same_max = b.same_max ∙ a.same_max;
  same_window = b.same_window ∙ a.same_window;
  later = omega arith;
  worth = omega (
    arith,
    ap (λ (z : ℕ). (l''.tokens + n) * z) a.same_window,
    ap (λ (z : ℕ). z * l.window_ms) e,
    ap (λ (z : ℕ). l'.tokens * z) a.same_window,
    ap (λ (z : ℕ). l'.last_refill * z) a.same_max,
    ap (λ (z : ℕ). l''.last_refill * z) a.same_max,
  );
}

try_consume-Worth :
    (now : ℕ) (stage : String) (l : RateLimiter)
    → Worth l (try_consume now stage l).0 (allowed (try_consume now stage l).1)
unfolding try_consume
try_consume-Worth now stage l =
    Worth-trans l (refill now l) _ 0 _ _ (refill-Worth now l) (consume-Worth stage (refill now l))
      (omega arith)

-- The calls of a run, at the clock's readings: the state after them and how many were allowed.
pub serve : String → List ℕ → RateLimiter → RateLimiter × ℕ
serve stage [] l = (l, 0)
serve stage (now ∷ later) l =
    let (l', outcome) = try_consume now stage l in
    let (l'', n) = serve stage later l' in (l'', allowed outcome + n)

serve-Worth :
    (stage : String) (times : List ℕ) (l : RateLimiter)
    → Worth l (serve stage times l).0 (serve stage times l).1
unfolding serve
serve-Worth stage [] l = record {
  same_max = refl;
  same_window = refl;
  later = omega arith;
  worth = omega arith;
}
serve-Worth stage (now ∷ later) l =
    Worth-trans l (try_consume now stage l).0 _ _ _ _ (try_consume-Worth now stage l)
      (serve-Worth stage later (try_consume now stage l).0) refl

try_consume_last :
    (now : ℕ) (stage : String) (l : RateLimiter) (end : ℕ)
    → now ≤ end
    → l.last_refill ≤ end
    → (try_consume now stage l).0.last_refill ≤ end
unfolding try_consume refill consume
try_consume_last now stage l end h k = ground arith

serve_last :
    (stage : String) (times : List ℕ) (l : RateLimiter) (end : ℕ)
    → All (λ now. now ≤ end) times
    → l.last_refill ≤ end
    → (serve stage times l).0.last_refill ≤ end
unfolding serve
serve_last stage [] l end h k = k
serve_last stage (now ∷ later) l end (h, hs) k =
    serve_last stage later (try_consume now stage l).0 end hs (try_consume_last now stage l end h k)

pub create_state :
    (limit : String) (start : ℕ) {l : RateLimiter}
    → create_rate_limiter start limit ≡ ok l
    → (l.tokens ≡ l.max_tokens) × (l.last_refill ≡ start)
unfolding create_rate_limiter
create_state limit start h = elim (Option-cases (parse_rate_limit limit)) [
  | inl e ↦ absurd (ground arith)
  | inr ((n, w), e) ↦ ground arith
]

-- A limiter that is created from a limit such as "100/hour" grants, over any calls made up to a
-- time `end`, at most the whole bucket and what the elapsed time refills: counted in tokens times
-- the window, granted * window ≤ max * window + (end - start) * max.
pub serve-le-limit :
    (limit stage : String) (start end : ℕ) (times : List ℕ) {l : RateLimiter}
    → create_rate_limiter start limit ≡ ok l
    → start ≤ end
    → All (λ now. now ≤ end) times
    → (serve stage times l).1 * l.window_ms
      ≤ l.max_tokens * l.window_ms + (end - start) * l.max_tokens
serve-le-limit limit stage start end times {l} made h hs =
    let s = serve-Worth stage times l in
    let (full, began) = create_state limit start made in
    let last : (serve stage times l).0.last_refill ≤ end =
      serve_last stage times l end hs (omega arith) in
    let span : end - start + start ≡ end = omega arith in
    omega (
      arith,
      s.worth,
      mul-le-mul_right l.max_tokens last,
      ap (λ (z : ℕ). z * l.max_tokens) span,
      ap (λ (z : ℕ). z * l.window_ms) full,
      ap (λ (z : ℕ). z * l.max_tokens) began,
    )

module _ (now : ℕ) (stage : String) (l : RateLimiter) where
  -- Either the call is allowed and there was a token or the elapsed time is worth one, or it is
  -- refused with the stage's name and there was neither.
  abbrev IsDecided : Type 0
  IsDecided =
      (((try_consume now stage l).1 ≡ ok tt)
        × ((0 < l.tokens) ⊎ (l.window_ms ≤ (now - l.last_refill) * l.max_tokens)))
      ⊎ (((try_consume now stage l).1
            ≡ err (record { code = rate_exceeded; stage_name = some stage }))
          × (l.tokens ≡ 0)
          × ((now - l.last_refill) * l.max_tokens < l.window_ms))

  amount_iff :
      0 < l.window_ms → (0 < amount now l) ↔ (l.window_ms ≤ (now - l.last_refill) * l.max_tokens)
  amount_iff h =
      let (to, from) = le-div_iff_mul-le {x = 1} {y = (now - l.last_refill) * l.max_tokens} h in
      ((λ p. let q = to p in omega arith), (λ p. from (omega arith)))

  refilled_tokens :
      0 < l.window_ms
      → ((0 < (refill now l).tokens)
          × ((0 < l.tokens) ⊎ (l.window_ms ≤ (now - l.last_refill) * l.max_tokens)))
        ⊎ (((refill now l).tokens ≡ 0)
            × (l.tokens ≡ 0)
            × ((now - l.last_refill) * l.max_tokens < l.window_ms))
  refilled_tokens h = elim (refill_cases now l) [
    | inl (p, e) ↦
        let worth = (amount_iff h).0 p in
        let m : 0 < l.max_tokens = grind arith in inl (rw e (omega arith), inr worth)
    | inr (z, e) ↦
        let short : (now - l.last_refill) * l.max_tokens < l.window_ms =
          elim (dec_lt ((now - l.last_refill) * l.max_tokens) l.window_ms) [
            | yes p ↦ p
            | no q ↦ let p = (amount_iff h).1 (omega arith) in absurd (omega arith)
          ] in
        rw e (elim (dec_lt 0 l.tokens) [
          | yes p ↦ inl (p, inl p)
          | no q ↦ inr (omega arith, omega arith, short)
        ])
  ]

-- A call is allowed exactly when the bucket holds a token, or the time since the last refill is
-- worth at least one (elapsed * max ≥ window).
try_consume-IsDecided :
    (now : ℕ) (stage : String) (l : RateLimiter) → 0 < l.window_ms → IsDecided now stage l
unfolding try_consume
try_consume-IsDecided now stage l h =
    ground (arith, refilled_tokens now stage l h, consume_cases stage (refill now l))
