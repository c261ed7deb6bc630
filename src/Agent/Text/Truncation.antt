-- ===== src/Agent/Text/Truncation.antt =====
-- What is handed over of the output of a tool.
use Prim.Native.String.{len}
use text.Mathlib.TextPositions.{len-append}
use native.Mathlib.Decide.{dec_lt}
use open_thinking.Base.{
  ℕ, zero, suc, List, [], ◌∷◌, ◌++◌, String, ◌*◌, ◌-◌, ◌≤◌, ◌<◌, ◌≡◌, refl, ap, ◌∙◌, ◌⊎◌, inl, inr,
  true, false, arith, leb, length, take, drop, take_of_length-le, ◌&&◌,
}
use open_thinking.Base.Texts.{split, join, join-split}
use open_thinking.Agent.Text.{◌⋯◌, newline, truncation_notice, truncate_tool_output}

within : (n k : ℕ) → n ≤ 2000 → k ≤ 51200 → (leb n 2000 && leb k 51200) ≡ true
within n k h g = ground (arith, h, g)

lines_whole :
    (content : String) (n : ℕ)
    → length (split newline content) ≤ n
    → join "\n" (take n (split newline content)) ≡ content
lines_whole content n h =
    ap (join "\n") (take_of_length-le n (split newline content) h) ∙ join-split "\n" content

lines_kept :
    (content : String) (n : ℕ) → n ≡ 0 → join "\n" (drop n (split newline content)) ≡ content
lines_kept content n h = rw h (join-split "\n" content)

len-twice : (content notice : String) → 2 * len content ≤ len (content ⋯ notice ⋯ content)
len-twice content notice =
    rw (len-append content (notice ⋯ content), len-append notice content) (omega arith)

kept :
    (content : String)
    → length (split newline content) ≤ 2000
    → len content ≤ 51200
    → truncate_tool_output content ≡ content
unfolding truncate_tool_output
kept content few small = rw (within _ (len content) few small) refl

-- The first `n` lines, and the last `n`, or all where there are fewer.
abbrev pub IsFirst : ℕ → List String → List String → Type 0
IsFirst n front lines =
    (rest : List String) × (lines ≡ front ++ rest)
    × ((length front ≡ n) ⊎ ((rest ≡ []) × (length front ≤ n)))

abbrev pub IsLast : ℕ → List String → List String → Type 0
IsLast n back lines =
    (before : List String) × (lines ≡ before ++ back)
    × ((length back ≡ n) ⊎ ((before ≡ []) × (length back ≤ n)))

take-IsFirst : (n : ℕ) (lines : List String) → IsFirst n (take n lines) lines
take-IsFirst zero lines = (lines, refl, inl refl)
take-IsFirst (suc n) [] = ([], refl, inr (refl, omega arith))
take-IsFirst (suc n) (l ∷ lines) =
    let (rest, e, size) = take-IsFirst n lines in
    (
      rest,
      ap (◌∷◌ l) e,
      elim size [
        | inl h ↦ inl (omega (arith, h))
        | inr (none_left, h) ↦ inr (none_left, omega (arith, h))
      ],
    )

drop-splits :
    (k : ℕ) (lines : List String)
    → k ≤ length lines
    → (before : List String) × (lines ≡ before ++ drop k lines)
      × (length (drop k lines) ≡ length lines - k)
drop-splits zero lines h = ([], refl, omega arith)
drop-splits (suc k) [] h = absurd (omega (arith, h))
drop-splits (suc k) (l ∷ lines) h =
    let (before, e, size) = drop-splits k lines (omega (arith, h)) in
    (l ∷ before, ap (◌∷◌ l) e, omega (arith, size))

drop-IsLast : (n : ℕ) (lines : List String) → IsLast n (drop (length lines - n) lines) lines
drop-IsLast n lines = elim (dec_lt n (length lines)) [
  | no few ↦
      let whole : length lines - n ≡ 0 = omega (arith, few) in
      rw whole ([], refl, inr (refl, omega (arith, few)))
  | yes many ↦
      let (before, e, size) = drop-splits (length lines - n) lines (omega arith) in
      (before, e, inl (omega (arith, size, many)))
]

-- What is handed over of an output that is over a limit: its first 200 lines, the notice, and its last
-- 100 lines; for an output of at most 100 lines, the whole of it twice.
abbrev pub IsCut : String → Type 0
IsCut content =
    let lines = split newline content in
    let notice = truncation_notice (length lines) (len content) in
    let out = truncate_tool_output content in
    ((front : List String) × (back : List String) × IsFirst 200 front lines
      × IsLast 100 back lines
      × (out ≡ join "\n" front ⋯ notice ⋯ join "\n" back))
    × ((100 < length lines) ⊎ ((out ≡ content ⋯ notice ⋯ content) × (2 * len content ≤ len out)))

cut :
    (content : String)
    → (leb (length (split newline content)) 2000 && leb (len content) 51200) ≡ false
    → truncate_tool_output content
      ≡ join "\n" (take 200 (split newline content))
        ⋯ truncation_notice (length (split newline content)) (len content)
        ⋯ join "\n" (drop (length (split newline content) - 100) (split newline content))
unfolding truncate_tool_output
cut content over = rw over refl

over-IsCut :
    (content : String)
    → (leb (length (split newline content)) 2000 && leb (len content) 51200) ≡ false
    → IsCut content
over-IsCut content over =
    let lines = split newline content in
    let shape = cut content over in
    (
      (
        take 200 lines,
        drop (length lines - 100) lines,
        take-IsFirst 200 lines,
        drop-IsLast 100 lines,
        shape,
      ),
      elim (dec_lt 100 (length lines)) [
        | yes many ↦ inl many
        | no few ↦
            let notice = truncation_notice (length lines) (len content) in
            let twice : truncate_tool_output content ≡ content ⋯ notice ⋯ content =
              rw
                (
                  shape,
                  lines_whole content 200 (omega (arith, few)),
                  lines_kept content (length lines - 100) (omega (arith, few)),
                )
                refl in
            inr (twice, rw twice (len-twice content notice))
      ],
    )

over_lines : (n k : ℕ) → 2000 < n → (leb n 2000 && leb k 51200) ≡ false
over_lines n k h = ground (arith, h)

over_bytes : (n k : ℕ) → 51200 < k → (leb n 2000 && leb k 51200) ≡ false
over_bytes n k h = ground (arith, h)

-- An output of at most 2000 lines and 51200 bytes is handed over as it is. Of one that is over a limit,
-- the first 200 lines, the notice and the last 100 lines are handed over. Where it has at most 100
-- lines, that is the whole output, the notice, and the whole output again, and at least twice as long.
pub truncate_tool_output_cases :
    (content : String)
    → ((length (split newline content) ≤ 2000)
        × (len content ≤ 51200)
        × (truncate_tool_output content ≡ content))
      ⊎ (((2000 < length (split newline content)) ⊎ (51200 < len content)) × IsCut content)
truncate_tool_output_cases content =
    let over = over-IsCut content in
    let k = length (split newline content) in
    elim (dec_lt 2000 (length (split newline content))) [
      | yes long ↦ inr (inl long, over (over_lines k (len content) long))
      | no short ↦ elim (dec_lt 51200 (len content)) [
        | yes big ↦ inr (inr big, over (over_bytes k (len content) big))
        | no small ↦
            let few : length (split newline content) ≤ 2000 = omega (arith, short) in
            let light : len content ≤ 51200 = omega (arith, small) in
            inl (few, light, kept content few light)
      ]
    ]
