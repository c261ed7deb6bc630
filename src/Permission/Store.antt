-- ===== src/Permission/Store.antt =====
-- src/core/permissions/permission-store.ts and permission-types.ts. The rules file is the list of its
-- rules; reading and writing it is left out, and so is the time stamp of a rule.
pub mod Laws
use Prim.Native.Char.{code}
use Prim.Native.String
use open_thinking.Base.{
  ℕ, String, ◌-◌, Bool, true, false, ◌&&◌, ◌||◌, not, Option, none, some, List, [], ◌∷◌, ◌++◌, ◌==◌,
  eqb, if◌then◌else◌, keep, length,
}

pub data PermissionAction : Type 0 where
  allow deny : PermissionAction

pub record PermissionRule : Type 0 where
  pub tool : String
  pub pattern : String
  pub action : PermissionAction

-- The regular expression that a pattern becomes: `.*`, `[^/]*`, or a character.
pub data Token : Type 0 where
  deep star : Token
  literal : ℕ → Token

-- `split("**")`, then `split("*")`; `pending` says that a `*` was read whose successor is not known.
unfoldable pub tokens : (pending : Bool) → String → List Token
tokens pending String.[] = if pending then star ∷ [] else []
tokens pending (String.◌∷◌ c s) =
    let fresh = tokens false s in
    let starred = tokens true s in
    if eqb (code c) b'*'
    then if pending then deep ∷ fresh else starred
    else if pending
    then star ∷ literal (code c) ∷ fresh
    else literal (code c) ∷ fresh

-- A repetition of the characters that pass a test, before the rest.
unfoldable pub repeated : (ℕ → Bool) → (String → Bool) → String → Bool
repeated test rest String.[] = rest String.[]
repeated test rest (String.◌∷◌ c s) =
    rest (String.◌∷◌ c s) || (test (code c) && repeated test rest s)

-- What `.` does not match.
abbrev is_line_end : ℕ → Bool
is_line_end c = eqb c 10 || (eqb c 13 || (eqb c 8232 || eqb c 8233))

unfoldable pub same_head : ℕ → (String → Bool) → String → Bool
same_head c rest String.[] = false
same_head c rest (String.◌∷◌ d s) = eqb c (code d) && rest s

unfoldable pub match_tokens : List Token → String → Bool
unfolding repeated same_head
match_tokens [] value = value == ""
match_tokens (deep ∷ ts) value = repeated (λ c. not (is_line_end c)) (match_tokens ts) value
match_tokens (star ∷ ts) value = repeated (λ c. not (eqb c b'/')) (match_tokens ts) value
match_tokens (literal c ∷ ts) value = same_head c (match_tokens ts) value

unfoldable pub match_pattern : (pattern value : String) → Bool
unfolding match_tokens tokens
match_pattern pattern value =
    pattern == value
    || (pattern == "**" || (pattern == "*" || match_tokens (tokens false pattern) value))

unfoldable pub applies : (tool subject : String) → PermissionRule → Bool
applies tool subject rule =
    (rule.tool == tool || rule.tool == "*") && match_pattern rule.pattern subject

-- The loop runs from the last rule to the first.
unfoldable pub find_rule : (tool subject : String) → List PermissionRule → Option PermissionRule
unfolding applies
find_rule tool subject [] = none
find_rule tool subject (rule ∷ rules) = elim (find_rule tool subject rules) [
  | some found ↦ some found
  | none ↦ if applies tool subject rule then some rule else none
]

unfoldable pub add_rule :
    (tool pattern : String) → PermissionAction → List PermissionRule → List PermissionRule
add_rule tool pattern action rules =
    keep (λ r. not (r.tool == tool && r.pattern == pattern)) rules
    ++ (record { tool = tool; pattern = pattern; action = action }) ∷ []

-- `pattern && r.pattern !== pattern`
unfoldable pub other_pattern : Option String → PermissionRule → Bool
other_pattern none r = false
other_pattern (some pattern) r = not (pattern == "") && not (r.pattern == pattern)

-- The rules that stay, and how many were removed.
unfoldable pub remove_rule : String → Option String → List PermissionRule → List PermissionRule × ℕ
unfolding other_pattern
remove_rule tool pattern rules =
    let kept = keep (λ r. not (r.tool == tool) || other_pattern pattern r) rules in
    (kept, length rules - length kept)
