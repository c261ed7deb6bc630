-- ===== src/Sandbox/Manager/Diffs.antt =====
-- The differences that `diff` lists: each one leads its file to what the sandbox shows at that path, and
-- a file without one holds that already.
use open_thinking.Base.{
  String, ◌≡◌, refl, sym, ap, ◌∙◌, ◌⊎◌, inl, inr, Bool, true, false, Option, none, some, List, [],
  ◌∷◌, ◌==◌, eq_iff, Bool-cases, Option-cases, if◌then◌else◌, Elem, some-eq, none-ne-some,
  Elem-append_left, Elem-append_right, Elem-append_cases,
}
use open_thinking.Sandbox.Files.{sandbox_dir, working_dir, walk, FileSystem, IsFileSystem}
use open_thinking.Sandbox.Manager.{
  SandboxFileDiff, added, modified, deleted, tombstone_marker, insert_diff, sort_diffs,
  deleted_diff, written_diff, file_diff, file_diffs, diff, new_text,
}

-- What the stage sees: a file of the sandbox, unless it holds the mark, over a file of the project.
unfoldable pub overlay : Option String → Option String → Option String
overlay none below = below
overlay (some c) below = if c == tombstone_marker then none else some c

insert-Elem :
    (le : String → String → Bool) (x y : SandboxFileDiff) (ys : List SandboxFileDiff)
    → Elem x (insert_diff le y ys)
    → Elem x (y ∷ ys)
unfolding insert_diff
insert-Elem le x y [] m = m
insert-Elem le x y (z ∷ ys) m = elim (Bool-cases (le y.path z.path)) [
  | inl e ↦ rw (insert_diff, e) at m
  | inr e ↦ elim (rw (insert_diff, e) at m) [
    | inl f ↦ inr (inl f)
    | inr n ↦ elim (insert-Elem le x y ys n) [ inl f ↦ inl f | inr k ↦ inr (inr k) ]
  ]
]

Elem-insert :
    (le : String → String → Bool) (x y : SandboxFileDiff) (ys : List SandboxFileDiff)
    → Elem x (y ∷ ys)
    → Elem x (insert_diff le y ys)
unfolding insert_diff
Elem-insert le x y [] m = m
Elem-insert le x y (z ∷ ys) m = elim (Bool-cases (le y.path z.path)) [
  | inl e ↦ rw (insert_diff, e) m
  | inr e ↦
      rw (insert_diff, e)
        (elim m [
          | inl f ↦ inr (Elem-insert le x y ys (inl f))
          | inr n ↦ elim n [ inl f ↦ inl f | inr k ↦ inr (Elem-insert le x y ys (inr k)) ]
        ])
]

sort-Elem :
    (le : String → String → Bool) (x : SandboxFileDiff) (xs : List SandboxFileDiff)
    → Elem x (sort_diffs le xs)
    → Elem x xs
unfolding sort_diffs
sort-Elem le x [] m = m
sort-Elem le x (y ∷ xs) m = elim (insert-Elem le x y (sort_diffs le xs) m) [
  | inl e ↦ inl e
  | inr n ↦ inr (sort-Elem le x xs n)
]

Elem-sort :
    (le : String → String → Bool) (x : SandboxFileDiff) (xs : List SandboxFileDiff)
    → Elem x xs
    → Elem x (sort_diffs le xs)
unfolding sort_diffs
Elem-sort le x [] m = m
Elem-sort le x (y ∷ xs) (inl e) = Elem-insert le x y (sort_diffs le xs) (inl e)
Elem-sort le x (y ∷ xs) (inr m) = Elem-insert le x y (sort_diffs le xs) (inr (Elem-sort le x xs m))

-- What a difference makes of its file.
unfoldable pub target : SandboxFileDiff → Option String
unfolding new_text
target x = elim x.status [
  | deleted ↦ none
  | added ↦ some (new_text x)
  | modified ↦ some (new_text x)
]

module _ {Fs : Type 0} (fs : FileSystem Fs) (law : IsFileSystem fs) where
  unfoldable pub view : String → Fs → Option String
  unfolding overlay
  view q d = overlay (law.content sandbox_dir q d) (law.content working_dir q d)

  -- The differences of one path.
  abbrev OfPath : String → Fs → List SandboxFileDiff → Type 0
  OfPath p d xs =
      ((x : SandboxFileDiff) → Elem x xs → (x.path ≡ p) × (target x ≡ view p d))
      × ((law.content working_dir p d ≡ view p d)
          ⊎ ((x : SandboxFileDiff) × Elem x xs × (x.path ≡ p)))

  single :
      (p : String) (d : Fs) (x : SandboxFileDiff)
      → x.path ≡ p
      → target x ≡ view p d
      → OfPath p d (x ∷ [])
  single p d x e t =
      ((λ y m. elim m [ inl f ↦ rw f (e, t) | inr n ↦ elim n [ ] ]), inr (x, inl refl, e))

  nothing : (p : String) (d : Fs) → law.content working_dir p d ≡ view p d → OfPath p d []
  nothing p d e = ((λ y m. elim m [ ]), inl e)

  module _ (p : String) (d : Fs) where
    deleted_diff-OfPath :
        (c : String) (xs : List SandboxFileDiff)
        → law.content sandbox_dir p d ≡ some c
        → (c == tombstone_marker) ≡ true
        → deleted_diff fs p d ≡ some xs
        → OfPath p d xs
    unfolding deleted_diff view overlay target
    deleted_diff-OfPath c xs f m h =
        let gone : view p d ≡ none = rw (f, overlay, m) refl in
        elim (Bool-cases (fs.exists working_dir p d)) [
          | inr e ↦
              let same = some-eq _ _ (rw (deleted_diff, e) at h) in
              rw (← same) (nothing p d (law.absent_content working_dir p d e ∙ sym gone))
          | inl e ↦ elim (Option-cases (fs.read working_dir p d)) [
            | inl r ↦ absurd (none-ne-some xs (rw (deleted_diff, e, r) at h))
            | inr (o, r) ↦
                let same = some-eq _ _ (rw (deleted_diff, e, r) at h) in
                rw (← same) (single p d _ refl (sym gone))
          ]
        ]

    written_diff-OfPath :
        (c : String) (xs : List SandboxFileDiff)
        → law.content sandbox_dir p d ≡ some c
        → (c == tombstone_marker) ≡ false
        → written_diff fs p c d ≡ some xs
        → OfPath p d xs
    unfolding written_diff view overlay target new_text
    written_diff-OfPath c xs f m h =
        let kept : view p d ≡ some c = rw (f, overlay, m) refl in
        elim (Bool-cases (fs.exists working_dir p d)) [
          | inr e ↦
              let same = some-eq _ _ (rw (written_diff, e) at h) in
              rw (← same) (single p d _ refl (sym kept))
          | inl e ↦ elim (Option-cases (fs.read working_dir p d)) [
            | inl r ↦ absurd (none-ne-some xs (rw (written_diff, e, r) at h))
            | inr (o, r) ↦ elim (Bool-cases (o == c)) [
              | inl s ↦
                  let same = some-eq _ _ (rw (written_diff, e, r, s) at h) in
                  rw (← same) (
                    nothing p d (
                      law.read_content working_dir p o d r ∙ ap some ((eq_iff o c).0 s) ∙ sym kept))
              | inr s ↦
                  let same = some-eq _ _ (rw (written_diff, e, r, s) at h) in
                  rw (← same) (single p d _ refl (sym kept))
            ]
          ]
        ]

    file_diff-OfPath : (xs : List SandboxFileDiff) → file_diff fs p d ≡ some xs → OfPath p d xs
    unfolding file_diff
    file_diff-OfPath xs h = elim (Option-cases (fs.read sandbox_dir p d)) [
      | inl r ↦ absurd (none-ne-some xs (rw (file_diff, r) at h))
      | inr (c, r) ↦
          let f = law.read_content sandbox_dir p c d r in
          elim (Bool-cases (c == tombstone_marker)) [
            | inl m ↦ deleted_diff-OfPath c xs f m (rw (file_diff, r, m) at h)
            | inr m ↦ written_diff-OfPath c xs f m (rw (file_diff, r, m) at h)
          ]
    ]

  -- Each difference leads to the view; a path of the list has one, or needs none.
  pub record IsDiff (d : Fs) (xs : List SandboxFileDiff) (paths : List String) : Type 0 where
    pub leads : (x : SandboxFileDiff) → Elem x xs → target x ≡ view x.path d
    pub covers :
        (p : String)
        → Elem p paths
        → (law.content working_dir p d ≡ view p d)
          ⊎ ((x : SandboxFileDiff) × Elem x xs × (x.path ≡ p))

  file_diffs-IsDiff :
      (d : Fs) (paths : List String) (xs : List SandboxFileDiff)
      → file_diffs fs paths d ≡ some xs
      → IsDiff d xs paths
  unfolding file_diffs
  file_diffs-IsDiff d [] xs h =
      let same = some-eq _ _ h in
      rw (← same) (record { leads = λ x m. elim m [ ]; covers = λ p m. elim m [ ] })
  file_diffs-IsDiff d (p ∷ paths) zs h = elim (Option-cases (file_diff fs p d)) [
    | inl e ↦ absurd (none-ne-some zs (rw (file_diffs, e) at h))
    | inr (xs, e) ↦ elim (Option-cases (file_diffs fs paths d)) [
      | inl f ↦ absurd (none-ne-some zs (rw (file_diffs, e, f) at h))
      | inr (ys, f) ↦
          let same = some-eq _ _ (rw (file_diffs, e, f) at h) in
          let (each, first) = file_diff-OfPath p d xs e in
          let rest = file_diffs-IsDiff d paths ys f in
          rw (← same) (record {
            leads = λ x m. elim (Elem-append_cases x xs ys m) [
              | inl n ↦ let (g, t) = each x n in t ∙ ap (λ r. view r d) (sym g)
              | inr n ↦ rest.leads x n
            ];
            covers = λ q m. elim m [
              | inl g ↦ rw g (elim first [
                | inl k ↦ inl k
                | inr (x, n, k) ↦ inr (x, Elem-append_left x xs ys n, k)
              ])
              | inr n ↦ elim (rest.covers q n) [
                | inl k ↦ inl k
                | inr (x, l, k) ↦ inr (x, Elem-append_right x xs ys l, k)
              ]
            ];
          })
    ]
  ]

  pub diff-IsDiff :
      (le : String → String → Bool) (d : Fs) (xs : List SandboxFileDiff)
      → diff fs le d ≡ some xs
      → IsDiff d xs (walk "" (fs.tree d))
  unfolding diff
  diff-IsDiff le d xs h = elim (Option-cases (file_diffs fs (walk "" (fs.tree d)) d)) [
    | inl e ↦ absurd (none-ne-some xs (rw (diff, e) at h))
    | inr (ys, e) ↦
        let same = some-eq _ _ (rw (diff, e) at h) in
        let found = file_diffs-IsDiff d (walk "" (fs.tree d)) ys e in
        rw (← same) (record {
          leads = λ x m. found.leads x (sort-Elem le x ys m);
          covers = λ q m. elim (found.covers q m) [
            | inl k ↦ inl k
            | inr (x, l, k) ↦ inr (x, Elem-sort le x ys l, k)
          ];
        })
  ]
