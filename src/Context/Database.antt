-- ===== src/Context/Database.antt =====
-- src/context/store/context-store.ts: the rows, and the statements that the store prepares. SQLite is
-- not part of the repository: a database is a record of the statements, each of which may throw
-- (`none`), and `IsTable` says of them what the store relies on. Times are whole milliseconds.
use open_thinking.Base.{
  ℕ, String, ◌≡◌, Bool, Option, none, some, List, Elem, ◌==◌, false, if◌then◌else◌, ltb,
}

pub record Row : Type 0 where
  pub key : String
  pub value : String
  pub created_by : String
  pub created_at : ℕ
  pub expires_at : Option ℕ

pub record SnapshotRow : Type 0 where
  pub id : String
  pub name : String
  pub description : Option String
  pub created_at : ℕ
  pub created_by : String
  pub entry_count : ℕ
  pub content : String

-- `expires_at` is set and before `now`.
unfoldable pub is_expired : ℕ → Row → Bool
is_expired now row = elim row.expires_at [ none ↦ false | some t ↦ ltb t now ]

-- The prepared statements. A read does not change the database.
pub record Database (Db : Type 0) : Type 0 where
  pub upsert : Row → Db → Option Db
  pub select : String → Db → Option (Option Row)
  pub delete : String → Db → Option Db
  -- `LIKE` a pattern.
  pub list : String → Db → Option (List Row)
  pub list_all : Db → Option (List Row)
  pub clear : Db → Option Db
  -- The statement, and `changes()`.
  pub purge_expired : ℕ → Db → Option (Db × ℕ)
  pub insert_snapshot : SnapshotRow → Db → Option Db
  pub select_snapshot : String → Db → Option (Option SnapshotRow)
  -- The latest first.
  pub list_snapshots : Db → Option (List SnapshotRow)
  pub delete_snapshot : String → Db → Option (Db × ℕ)

-- What the statements mean: `row` and `snapshot` are the row with a key, and the snapshot with an id.
pub record IsTable {Db : Type 0} (db : Database Db) : Type 0 where
  pub row : String → Db → Option Row
  pub snapshot : String → Db → Option SnapshotRow
  pub select_row : (k : String) (d : Db) (o : Option Row) → db.select k d ≡ some o → o ≡ row k d
  pub upsert_row :
      (r : Row) (d d' : Db) (k : String)
      → db.upsert r d ≡ some d'
      → row k d' ≡ (if r.key == k then some r else row k d)
  pub delete_row :
      (key : String) (d d' : Db) (k : String)
      → db.delete key d ≡ some d'
      → row k d' ≡ (if key == k then none else row k d)
  pub clear_row : (d d' : Db) (k : String) → db.clear d ≡ some d' → row k d' ≡ none
  pub list_row :
      (d : Db) (rs : List Row) (r : Row)
      → db.list_all d ≡ some rs
      → Elem r rs
      → row r.key d ≡ some r
  pub row_listed :
      (d : Db) (rs : List Row) (r : Row) (k : String)
      → db.list_all d ≡ some rs
      → row k d ≡ some r
      → (r.key ≡ k) × Elem r rs
  pub select_snapshot_row :
      (id : String) (d : Db) (o : Option SnapshotRow)
      → db.select_snapshot id d ≡ some o
      → o ≡ snapshot id d
  pub insert_snapshot_row :
      (s : SnapshotRow) (d d' : Db)
      → db.insert_snapshot s d ≡ some d'
      → (snapshot s.id d' ≡ some s) × ((k : String) → row k d' ≡ row k d)
