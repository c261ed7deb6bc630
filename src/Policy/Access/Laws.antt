-- ===== src/Policy/Access/Laws.antt =====
-- Access control against the meaning of the patterns.
use open_thinking.Base.{
  String, ◌≡◌, refl, ◌↔◌, ◌⊎◌, inl, inr, true, false, List, [], ◌∷◌, arith, Any, any, some,
  Bool-cases, or-eq-true, Elem, mem-keep,
}
use open_thinking.Result.{Result, Void, ok, err}
use open_thinking.Errors.{PolicyError, read_denied, write_denied}
use open_thinking.Base.Texts.{split}
use open_thinking.Policy.Glob.{match_glob}
use open_thinking.Policy.Glob.Laws.{Matches, match_glob_iff}
use open_thinking.Policy.Access.{
  Permissions, grant, check_read_access, check_write_access, filter_readable_keys,
}

-- Some pattern of the list covers the key.
abbrev pub Covers : List String → String → Type 0
Covers patterns key =
    Any (λ pattern. (pattern ≡ "*") ⊎ Matches (split b'.' pattern) (split b'.' key)) patterns

any-Covers :
    (patterns : List String) (key : String)
    → (any (λ pattern. match_glob pattern key) patterns ≡ true) ↔ Covers patterns key
any-Covers [] key = ((λ h. cc), (λ h. elim h [ ]))
any-Covers (p ∷ ps) key = (
  (λ h. elim ((or-eq-true _ _).0 h) [
    | inl now ↦ inl ((match_glob_iff p key).0 now)
    | inr later ↦ inr ((any-Covers ps key).0 later)
  ]),
  (λ h. (or-eq-true _ _).1 (elim h [
    | inl now ↦ inl ((match_glob_iff p key).1 now)
    | inr later ↦ inr ((any-Covers ps key).1 later)
  ])),
)

-- The loop with an early return is the Boolean test.
grant-eq-any :
    (denied : PolicyError) (patterns : List String) (key : String)
    → grant denied patterns key
      ≡ elim (any (λ p. match_glob p key) patterns) [ true ↦ ok tt | false ↦ err denied ]
unfolding grant
grant-eq-any denied [] key = refl
grant-eq-any denied (p ∷ ps) key = ground (arith, grant-eq-any denied ps key)

grant_iff :
    (denied : PolicyError) (patterns : List String) (key : String)
    → (grant denied patterns key ≡ ok tt) ↔ Covers patterns key
grant_iff denied patterns key = (
  (λ h. (any-Covers patterns key).0 (ground (arith, grant-eq-any denied patterns key))),
  (λ c. ground (arith, grant-eq-any denied patterns key, (any-Covers patterns key).1 c)),
)

-- What the loop decides: access and a covering pattern, or the given error and no such pattern.
abbrev pub Decides : Result Void PolicyError → PolicyError → List String → String → Type 0
Decides outcome denied patterns key =
    ((outcome ≡ ok tt) × Covers patterns key) ⊎ ((outcome ≡ err denied) × ¬ Covers patterns key)

grant-Decides :
    (denied : PolicyError) (patterns : List String) (key : String)
    → Decides (grant denied patterns key) denied patterns key
grant-Decides denied patterns key = elim (Bool-cases (any (λ p. match_glob p key) patterns)) [
  | inl t ↦ let c = (any-Covers patterns key).0 t in inl ((grant_iff denied patterns key).1 c, c)
  | inr f ↦ inr (
    ground (arith, grant-eq-any denied patterns key),
    (λ c. let t = (any-Covers patterns key).1 c in cc),
  )
]

-- A stage may read (write) a key exactly when one of its read (write) patterns covers the key, as
-- the single text "*" or by a match of segments; any other access is refused with the code of that
-- access and the stage's name.
pub check_access-Decides :
    (stage key : String) (ps : Permissions)
    → Decides
        (check_read_access stage ps key)
        (record { code = read_denied; stage_name = some stage })
        ps.read
        key
      × Decides
          (check_write_access stage ps key)
          (record { code = write_denied; stage_name = some stage })
          ps.write
          key
unfolding check_read_access check_write_access
check_access-Decides stage key ps = (grant-Decides _ ps.read key, grant-Decides _ ps.write key)

-- The keys that are offered to a stage are those of the store that its read check accepts.
pub mem-filter_readable_keys :
    (stage key : String) (ps : Permissions) (keys : List String)
    → Elem key (filter_readable_keys ps keys)
      ↔ (Elem key keys × (check_read_access stage ps key ≡ ok tt))
unfolding filter_readable_keys check_read_access
mem-filter_readable_keys stage key ps keys = (
  (λ m.
      let (a, b) = (mem-keep _ key keys).0 m in
      (a, (grant_iff _ ps.read key).1 ((any-Covers ps.read key).0 b))),
  (λ (a, b).
      (mem-keep _ key keys).1 (a, (any-Covers ps.read key).1 ((grant_iff _ ps.read key).0 b))),
)
