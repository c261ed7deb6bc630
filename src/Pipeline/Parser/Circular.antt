-- ===== src/Pipeline/Parser/Circular.antt =====
-- src/pipeline/parser/pipeline-parser.ts, detectCircularDeps: a search in depth over the stages. `deps`
-- gives what a stage depends on, and `none` where the loop over it throws. `none` of a search stands
-- for a recursion that is out of fuel.
pub mod Laws
use open_thinking.Base.{
  ℕ, zero, suc, String, Bool, true, false, not, Option, none, some, List, [], ◌∷◌, ◌==◌,
  if◌then◌else◌, length,
}
use open_thinking.Base.Texts.{contains}

-- The two sets of the search.
pub record Marks : Type 0 where
  pub visited : List String
  pub visiting : List String

-- What a visit ends in: it returns false, it returns true, or it throws.
pub data Visit : Type 0 where
  clean : Marks → Visit
  cyclic broken : Visit

-- `set.delete(name)`
unfoldable pub delete : String → List String → List String
delete name [] = []
delete name (x ∷ xs) = let rest = delete name xs in if x == name then rest else x ∷ rest

-- A loop of visits, which ends at the first that does not return false.
unfoldable pub visit_all : (String → Marks → Option Visit) → List String → Marks → Option Visit
visit_all visit [] marks = some (clean marks)
visit_all visit (name ∷ names) marks = elim (visit name marks) [
  | none ↦ none
  | some (clean marks') ↦ visit_all visit names marks'
  | some cyclic ↦ some cyclic
  | some broken ↦ some broken
]

-- After the loop over the dependencies.
unfoldable pub leave : String → Option Visit → Option Visit
unfolding delete
leave name none = none
leave name (some (clean marks)) =
    some (clean (record { visited = name ∷ marks.visited; visiting = delete name marks.visiting }))
leave name (some cyclic) = some cyclic
leave name (some broken) = some broken

module _ (deps : String → Option (List String)) where
  unfoldable pub visit : ℕ → String → Marks → Option Visit
  unfolding visit_all leave
  visit zero name marks = none
  visit (suc fuel) name marks =
      if contains marks.visiting name
      then some cyclic
      else if contains marks.visited name
      then some (clean marks)
      else elim (deps name) [
        | none ↦ some broken
        | some ds ↦ leave name (
            visit_all (visit fuel) ds
              (record { visited = marks.visited; visiting = name ∷ marks.visiting }))
      ]

  -- The search from every stage: `cyclic` is the error.
  unfoldable pub detect_circular_deps : List String → Option Visit
  unfolding visit visit_all
  detect_circular_deps names =
      visit_all (visit (suc (length names))) names (record { visited = []; visiting = [] })
