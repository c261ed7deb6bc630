-- ===== src/Context/Memory.antt =====
-- A database in memory: the rows, and the snapshots, as lists. Listing the rows fails when a key occurs
-- twice, which the statements do not bring about.
use open_thinking.Base.{
  String, ◌≡◌, refl, sym, ap, ◌∙◌, inl, inr, Bool, true, false, ◌&&◌, not, Option, none, some, List,
  [], ◌∷◌, arith, Bool-cases, ◌==◌, eq_iff, eq_refl, if◌then◌else◌, any, keep, length, Elem,
  and-eq-true, some-eq,
}
use open_thinking.Base.Texts.{eq_comm}
use open_thinking.Context.Database.{Row, SnapshotRow, is_expired, Database, IsTable}

abbrev pub Memory : Type 0
Memory = List Row × List SnapshotRow

unfoldable pub find_row : String → List Row → Option Row
find_row k [] = none
find_row k (r ∷ rows) = if r.key == k then some r else find_row k rows

unfoldable pub remove_row : String → List Row → List Row
remove_row key [] = []
remove_row key (r ∷ rows) =
    let rest = remove_row key rows in if r.key == key then rest else r ∷ rest

unfoldable pub distinct : List Row → Bool
distinct [] = true
distinct (r ∷ rows) = not (any (λ x. x.key == r.key) rows) && distinct rows

unfoldable pub find_saved : String → List SnapshotRow → Option SnapshotRow
find_saved id [] = none
find_saved id (s ∷ saved) = if s.id == id then some s else find_saved id saved

abbrev pub memory : Database Memory
memory = record {
  upsert = λ r (rows, saved). some (r ∷ remove_row r.key rows, saved);
  select = λ k (rows, saved). some (find_row k rows);
  delete = λ k (rows, saved). some (remove_row k rows, saved);
  list = λ pattern (rows, saved). some rows;
  list_all = λ (rows, saved). if distinct rows then some rows else none;
  clear = λ (rows, saved). some ([], saved);
  purge_expired = λ now (rows, saved).
      some ((keep (λ r. not (is_expired now r)) rows, saved), length (keep (is_expired now) rows));
  insert_snapshot = λ s (rows, saved). some (rows, s ∷ saved);
  select_snapshot = λ id (rows, saved). some (find_saved id saved);
  list_snapshots = λ (rows, saved). some saved;
  delete_snapshot = λ id (rows, saved).
      some ((rows, keep (λ s. not (s.id == id)) saved), length (keep (λ s. s.id == id) saved));
}

pub find_row-remove_row :
    (key k : String) (rows : List Row)
    → find_row k (remove_row key rows) ≡ (if key == k then none else find_row k rows)
unfolding find_row remove_row
find_row-remove_row key k [] = ground arith
find_row-remove_row key k (r ∷ rows) = elim (Bool-cases (r.key == key)) [
  | inl e ↦
      let same = (eq_iff r.key key).0 e in
      rw (remove_row, e, find_row-remove_row key k rows)
        (elim (Bool-cases (key == k)) [
          | inl f ↦ rw f refl
          | inr f ↦ rw (f, find_row, same, f) refl
        ])
  | inr e ↦
      rw (remove_row, e)
        (elim (Bool-cases (r.key == k)) [
          | inl f ↦
              let same = (eq_iff r.key k).0 f in
              let apart : (key == k) ≡ false =
                ap (λ x. key == x) (sym same) ∙ (eq_comm key r.key ∙ e) in
              rw (f, apart) refl
          | inr f ↦ rw (f, find_row-remove_row key k rows) refl
        ])
]

pub find_row-upsert :
    (r : Row) (k : String) (rows : List Row)
    → find_row k (r ∷ remove_row r.key rows) ≡ (if r.key == k then some r else find_row k rows)
unfolding find_row
find_row-upsert r k rows = elim (Bool-cases (r.key == k)) [
  | inl e ↦ rw e refl
  | inr e ↦ rw (e, find_row-remove_row r.key k rows, e) refl
]

any-of-Elem : (r : Row) (rows : List Row) → Elem r rows → any (λ x. x.key == r.key) rows ≡ true
any-of-Elem r [] m = elim m [ ]
any-of-Elem r (x ∷ rows) (inl e) = rw (← e, eq_refl r.key) refl
any-of-Elem r (x ∷ rows) (inr m) = rw (any-of-Elem r rows m) (ground arith)

pub find_row-Elem :
    (rows : List Row) (r : Row) → distinct rows ≡ true → Elem r rows → find_row r.key rows ≡ some r
unfolding find_row distinct
find_row-Elem [] r d m = elim m [ ]
find_row-Elem (x ∷ rows) r d (inl e) = rw (← e, eq_refl r.key) refl
find_row-Elem (x ∷ rows) r d (inr m) =
    let (fresh, rest) = (and-eq-true (not (any (λ y. y.key == x.key) rows)) (distinct rows)).0 d in
    elim (Bool-cases (x.key == r.key)) [
      | inr n ↦ rw n (find_row-Elem rows r rest m)
      | inl s ↦
          let t = rw (sym ((eq_iff x.key r.key).0 s)) at (any-of-Elem r rows m) in
          absurd (ground (arith, fresh, t))
    ]

pub Elem-find_row :
    (rows : List Row) (r : Row) (k : String) → find_row k rows ≡ some r → (r.key ≡ k) × Elem r rows
unfolding find_row
Elem-find_row [] r k h = absurd (ground (arith, h))
Elem-find_row (x ∷ rows) r k h = elim (Bool-cases (x.key == k)) [
  | inl e ↦
      let same : x ≡ r = (let h' = rw e at h in ground (arith, h')) in
      (ap (λ y. y.key) (sym same) ∙ (eq_iff x.key k).0 e, inl (sym same))
  | inr e ↦ let (n, m) = Elem-find_row rows r k (rw e at h) in (n, inr m)
]

pub listed :
    (rows rs : List Row)
    → (if distinct rows then some rows else none) ≡ some rs
    → (rows ≡ rs) × (distinct rows ≡ true)
listed rows rs h = elim (Bool-cases (distinct rows)) [
  | inl e ↦ (some-eq rows rs (rw e at h), e)
  | inr e ↦ absurd (let h' = rw e at h in ground (arith, h'))
]

unfoldable pub memory-IsTable : IsTable memory
unfolding find_saved find_row
memory-IsTable = record {
  row = λ k (rows, saved). find_row k rows;
  snapshot = λ id (rows, saved). find_saved id saved;
  select_row = λ k d o h. sym (some-eq _ _ h);
  upsert_row =
      λ r d d' k h. ap (λ x. find_row k x.0) (sym (some-eq _ _ h)) ∙ find_row-upsert r k d.0;
  delete_row = λ key d d' k h.
      ap (λ x. find_row k x.0) (sym (some-eq _ _ h)) ∙ find_row-remove_row key k d.0;
  clear_row = λ d d' k h. ap (λ x. find_row k x.0) (sym (some-eq _ _ h)) ∙ refl;
  list_row = λ d rs r h m. let (e, u) = listed d.0 rs h in find_row-Elem d.0 r u (rw e m);
  row_listed = λ d rs r k h f.
      let (e, u) = listed d.0 rs h in let (n, m) = Elem-find_row d.0 r k f in (n, rw (← e) m);
  select_snapshot_row = λ id d o h. sym (some-eq _ _ h);
  insert_snapshot_row = λ s d d' h. (
    ap (λ x. find_saved s.id x.1) (sym (some-eq _ _ h)) ∙ rw (eq_refl s.id) refl,
    (λ k. ap (λ x. find_row k x.0) (sym (some-eq _ _ h))),
  );
}
