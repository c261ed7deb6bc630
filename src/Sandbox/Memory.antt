-- ===== src/Sandbox/Memory.antt =====
-- A file system in memory: for each of the two directories, its files by path.
use open_thinking.Base.{
  String, ◌≡◌, refl, sym, ap, ◌∙◌, inl, inr, Bool, true, false, ◌&&◌, Option, none, some, List, [],
  ◌∷◌, arith, Bool-cases, ◌==◌, eq_iff, if◌then◌else◌, Elem, some-eq, none-ne-some,
}
use open_thinking.Base.Texts.{eq_comm}
use open_thinking.Context.Compression.{is_some}
use open_thinking.Sandbox.Files.{
  Place, sandbox_dir, working_dir, same_place, Tree, nil, file, walk, FileSystem, IsFileSystem,
}

abbrev pub Files : Type 0
Files = List (String × String)

abbrev pub Memory : Type 0
Memory = Files × Files

unfoldable pub find_file : String → Files → Option String
find_file q [] = none
find_file q ((p, c) ∷ files) = if p == q then some c else find_file q files

unfoldable pub without : String → Files → Files
without path [] = []
without path ((p, c) ∷ files) =
    let rest = without path files in if p == path then rest else (p, c) ∷ rest

unfoldable pub tree_of : Files → Tree
tree_of [] = nil
tree_of ((p, c) ∷ files) = file p (tree_of files)

unfoldable pub files_of : Place → Memory → Files
files_of sandbox_dir m = m.0
files_of working_dir m = m.1

unfoldable pub with_files : Place → Files → Memory → Memory
with_files sandbox_dir files m = (files, m.1)
with_files working_dir files m = (m.0, files)

abbrev pub memory : FileSystem Memory
memory = record {
  exists = λ place path m. is_some (find_file path (files_of place m));
  is_directory = λ place path m. false;
  read = λ place path m. find_file path (files_of place m);
  make_parent = λ place path m. some m;
  write = λ place path text m. some (with_files place ((path, text) ∷ files_of place m) m);
  remove = λ place path m. some (with_files place (without path (files_of place m)) m);
  tree = λ m. tree_of m.0;
  remove_sandbox = λ m. ([], m.1);
}

pub find_file-without :
    (p q : String) (files : Files)
    → find_file q (without p files) ≡ (if p == q then none else find_file q files)
unfolding find_file without
find_file-without p q [] = ground arith
find_file-without p q ((r, c) ∷ files) = elim (Bool-cases (r == p)) [
  | inl e ↦
      let same = (eq_iff r p).0 e in
      rw (without, e, find_file-without p q files)
        (elim (Bool-cases (p == q)) [ inl f ↦ rw f refl | inr f ↦ rw (f, find_file, same, f) refl ])
  | inr e ↦
      rw (without, e)
        (elim (Bool-cases (r == q)) [
          | inl f ↦
              let apart : (p == q) ≡ false =
                ap (λ x. p == x) (sym ((eq_iff r q).0 f)) ∙ (eq_comm p r ∙ e) in
              rw (f, apart) refl
          | inr f ↦ rw (f, find_file-without p q files) refl
        ])
]

pub absent :
    (p : String) (files : Files) → is_some (find_file p files) ≡ false → find_file p files ≡ none
unfolding is_some
absent p files h = ground arith

files_of-with_files :
    (place at : Place) (files : Files) (m : Memory)
    → files_of at (with_files place files m)
      ≡ (if same_place place at then files else files_of at m)
unfolding files_of with_files same_place
files_of-with_files sandbox_dir sandbox_dir files m = refl
files_of-with_files sandbox_dir working_dir files m = refl
files_of-with_files working_dir sandbox_dir files m = refl
files_of-with_files working_dir working_dir files m = refl

same_place-eq : (place at : Place) → same_place place at ≡ true → place ≡ at
unfolding same_place
same_place-eq sandbox_dir sandbox_dir h = refl
same_place-eq sandbox_dir working_dir h = cc
same_place-eq working_dir sandbox_dir h = cc
same_place-eq working_dir working_dir h = refl

pub find_file-with_files :
    (place at : Place) (q : String) (files : Files) (m : Memory) (change : Bool) (v : Option String)
    → find_file q files ≡ (if change then v else find_file q (files_of place m))
    → find_file q (files_of at (with_files place files m))
      ≡ (if same_place place at && change then v else find_file q (files_of at m))
find_file-with_files place at q files m change v h = elim (Bool-cases (same_place place at)) [
  | inr e ↦ rw (files_of-with_files place at files m, e) refl
  | inl e ↦
      rw (files_of-with_files place at files m, e)
        (h ∙ ap (λ x. if change then v else find_file q (files_of x m)) (same_place-eq place at e))
]

pub tree_of-Elem :
    (p c : String) (files : Files) → find_file p files ≡ some c → Elem p (walk "" (tree_of files))
unfolding find_file tree_of walk
tree_of-Elem p c [] h = absurd (none-ne-some c h)
tree_of-Elem p c ((r, t) ∷ files) h = elim (Bool-cases (r == p)) [
  | inl e ↦ inl (sym ((eq_iff r p).0 e))
  | inr e ↦ inr (tree_of-Elem p c files (rw e at h))
]

unfoldable pub memory-IsFileSystem : IsFileSystem memory
unfolding find_file files_of
memory-IsFileSystem = record {
  content = λ place path m. find_file path (files_of place m);
  read_content = λ place p c d h. h;
  absent_content = λ place p d h. absent p (files_of place d) h;
  make_parent_content =
      λ place p d d' at q h. ap (λ x. find_file q (files_of at x)) (sym (some-eq _ _ h));
  write_content = λ place p c d d' at q h.
      ap (λ x. find_file q (files_of at x)) (sym (some-eq _ _ h))
      ∙ find_file-with_files place at q ((p, c) ∷ files_of place d) d (p == q) (some c) refl;
  remove_content = λ place p d d' at q h.
      ap (λ x. find_file q (files_of at x)) (sym (some-eq _ _ h))
      ∙ find_file-with_files place at q (without p (files_of place d)) d (p == q) none
          (find_file-without p q (files_of place d));
  tree_content = λ p c d h. tree_of-Elem p c d.0 h;
  remove_sandbox_content = λ q d. refl;
}
