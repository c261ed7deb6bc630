-- ===== src/Policy/Glob.antt =====
-- src/policies/engine/policy-engine.ts, glob matching. An index into an array is the list that is
-- left from there, so `pi` and `ki` are the two lists.
pub mod Laws
use Prim.Native.Char.{code}
use Prim.Native.String
use open_thinking.Base.Texts.{split}
use open_thinking.Base.{
  ℕ, String, Bool, true, false, ◌||◌, List, [], ◌∷◌, ◌==◌, eqb, if◌then◌else◌, is_empty, all,
}

-- The `for` loop of the `**` case: some suffix of the key matches the rest of the pattern.
unfoldable pub skip_any : (List String → Bool) → List String → Bool
skip_any rest [] = rest []
skip_any rest (k ∷ ks) = rest (k ∷ ks) || skip_any rest ks

-- One round of the `while` loop.
unfoldable pub glob_step : (List String → Bool) → String → String → List String → Bool
unfolding skip_any
glob_step rest seg k ks =
    if seg == "**"
    then skip_any rest (k ∷ ks)
    else if seg == "*"
    then rest ks
    else if seg == k
    then rest ks
    else false

unfoldable pub glob_match : List String → List String → Bool
unfolding glob_step
glob_match [] ks = is_empty ks
glob_match (seg ∷ ps) [] = all (λ p. p == "**") (seg ∷ ps)
glob_match (seg ∷ ps) (k ∷ ks) = glob_step (glob_match ps) seg k ks

unfoldable pub match_glob : String → String → Bool
unfolding glob_match split
match_glob pattern key =
    if pattern == "*" then true else glob_match (split b'.' pattern) (split b'.' key)
