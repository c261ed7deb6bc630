-- ===== src/Base/Regex.antt =====
-- Regular expressions as the sources write them: sequences of tests of one character, repeated tests, and
-- the assertions `^`, `$` and `\b`. An expression with alternatives is the list of its sequences.
pub mod Laws
use Prim.Native.Char.{code}
use Prim.Native.String
use open_thinking.Base.{
  ℕ, String, Bool, true, false, ◌&&◌, ◌||◌, not, Option, none, some, List, [], ◌∷◌, ◌++◌, leb, eqb,
  any, if◌then◌else◌,
}

pub data Atom : Type 0 where
  -- A character that passes a test, and any number of such characters.
  one many : (ℕ → Bool) → Atom
  boundary start finish : Atom

abbrev pub Sequence : Type 0
Sequence = List Atom

-- `\w`
abbrev pub is_word : ℕ → Bool
is_word c =
    (leb b'a' c && leb c b'z')
    || ((leb b'A' c && leb c b'Z') || ((leb b'0' c && leb c b'9') || eqb c b'_'))

-- `\s`, and what `trim` removes.
abbrev pub is_space : ℕ → Bool
is_space c =
    (leb 9 c && leb c 13)
    || (eqb c 32
        || (eqb c 160
            || (eqb c 5760
                || ((leb 8192 c && leb c 8202)
                    || ((leb 8232 c && leb c 8233)
                        || (eqb c 8239 || (eqb c 8287 || (eqb c 12288 || eqb c 65279))))))))

-- `.`
abbrev pub is_inline : ℕ → Bool
is_inline c = not (eqb c 10 || (eqb c 13 || (eqb c 8232 || eqb c 8233)))

-- The characters of a text, one after the other.
unfoldable pub literal : String → Sequence
literal String.[] = []
literal (String.◌∷◌ c s) = one (eqb (code c)) ∷ literal s

unfoldable pub is_word_at : Option ℕ → Bool
is_word_at none = false
is_word_at (some c) = is_word c

unfoldable pub next : String → Option ℕ
next String.[] = none
next (String.◌∷◌ c s) = some (code c)

-- One of the two characters at a place is a word character, and the other is not.
unfoldable pub is_boundary : Option ℕ → String → Bool
unfolding is_word_at next
is_boundary prev s = if is_word_at prev then not (is_word_at (next s)) else is_word_at (next s)

unfoldable pub is_start : Option ℕ → Bool
is_start none = true
is_start (some c) = false

unfoldable pub is_finish : String → Bool
is_finish String.[] = true
is_finish (String.◌∷◌ c s) = false

unfoldable pub one_then : (ℕ → Bool) → (Option ℕ → String → Bool) → String → Bool
one_then test rest String.[] = false
one_then test rest (String.◌∷◌ c s) = test (code c) && rest (some (code c)) s

unfoldable pub many_then : (ℕ → Bool) → (Option ℕ → String → Bool) → Option ℕ → String → Bool
many_then test rest prev String.[] = rest prev String.[]
many_then test rest prev (String.◌∷◌ c s) =
    rest prev (String.◌∷◌ c s) || (test (code c) && many_then test rest (some (code c)) s)

-- A match at a place: the character before it, and the text from it on.
unfoldable pub match_here : Sequence → Option ℕ → String → Bool
unfolding is_boundary is_start is_finish one_then many_then
match_here [] prev s = true
match_here (one test ∷ atoms) prev s = one_then test (match_here atoms) s
match_here (many test ∷ atoms) prev s = many_then test (match_here atoms) prev s
match_here (boundary ∷ atoms) prev s = is_boundary prev s && match_here atoms prev s
match_here (start ∷ atoms) prev s = is_start prev && match_here atoms prev s
match_here (finish ∷ atoms) prev s = is_finish s && match_here atoms prev s

-- A match at this place or a later one.
unfoldable pub match_from : Sequence → Option ℕ → String → Bool
unfolding match_here
match_from atoms prev String.[] = match_here atoms prev String.[]
match_from atoms prev (String.◌∷◌ c s) =
    match_here atoms prev (String.◌∷◌ c s) || match_from atoms (some (code c)) s

-- `regex.test(s)`
unfoldable pub test_regex : List Sequence → String → Bool
unfolding match_from
test_regex sequences s = any (λ atoms. match_from atoms none s) sequences
