-- ===== src/Storage/Crdb/Table.antt =====
-- The table `directories`, and what the statements of the CockroachDB driver do to it. A database
-- that fails answers every statement with its error.
use fertilesoil.Base.{
  Bool, none, some, List, [], ◌∷◌, ◌==◌, if◌then◌else◌, String, Error, other, wrap, Outcome, ok,
  err, Action, Option,
}
use fertilesoil.Api.{DirectoryId, Time, Directory, has_id}
use fertilesoil.Storage.Memory.Delete.{wrap_error, mark_deleted}

-- The columns are the fields of a directory.
abbrev pub Rows : Type 0
Rows = List Directory

-- `follower` is the older state that a query AS OF SYSTEM TIME follower_read_timestamp() sees.
pub record Db : Type 0 where
  pub rows : Rows
  pub follower : Rows
  pub failing : Option Error

-- A query that answers `a`; `text` is the message that wraps an error.
abbrev pub query : {A : Type 0} → Bool → String → (Rows → A) → Action Db A
query fast text f db = elim db.failing [
  | none ↦ (ok (f (if fast then db.follower else db.rows)), db)
  | some e ↦ (err (wrap text e), db)
]

-- A statement that writes, and may be refused.
abbrev pub execute : {A : Type 0} → String → (Rows → Outcome A × Rows) → Action Db A
execute text f db = elim db.failing [
  | none ↦ (wrap_error text (f db.rows).0, record db { rows = (f db.rows).1 })
  | some e ↦ (err (wrap text e), db)
]

-- The errors of the database: the primary key is taken, the parent is not in the table.
abbrev pub duplicate_key : Error
duplicate_key = other 1

abbrev pub foreign_key_violation : Error
foreign_key_violation = other 2

-- `sql.ErrNoRows`
abbrev pub no_rows : Error
no_rows = other 3

-- `parent_id UUID REFERENCES directories(id)`; with it an id that is new is not its own parent.
abbrev pub parent_exists : Directory → Rows → Bool
parent_exists d rows = elim d.parent [ none ↦ Bool.true | some p ↦ has_id p rows ]

-- INSERT INTO directories (name, parent_id, metadata) VALUES (...) RETURNING id, created_at,
-- updated_at, and the fields of the caller's object that Scan sets from it.
abbrev pub new_row : DirectoryId → Time → Directory → Directory
new_row new_id now d = record d {
  id = new_id;
  created_at = now;
  updated_at = now;
  deleted_at = none;
}

abbrev pub scan_inserted : DirectoryId → Time → Directory → Directory
scan_inserted new_id now d = record d { id = new_id; created_at = now; updated_at = now }

unfoldable pub insert_row : DirectoryId → Time → Directory → Rows → Outcome Directory × Rows
insert_row new_id now d rows =
    if has_id new_id rows
    then (err duplicate_key, rows)
    else if parent_exists d rows
    then (ok (scan_inserted new_id now d), new_row new_id now d ∷ rows)
    else (err foreign_key_violation, rows)

-- UPDATE directories SET name = $1, metadata = $2, updated_at = NOW() WHERE id = $3
abbrev pub set_columns : Time → Directory → Rows → Rows
set_columns now d [] = []
set_columns now d (r ∷ rows) =
    (if r.id == d.id
      then record r { name = d.name; metadata = d.metadata; updated_at = now }
      else r)
    ∷ set_columns now d rows

-- ... RETURNING updated_at
unfoldable pub update_row : Time → Directory → Rows → Outcome Directory × Rows
update_row now d rows =
    if has_id d.id rows
    then (ok (record d { updated_at = now }), set_columns now d rows)
    else (err no_rows, rows)

-- UPDATE directories SET deleted_at = NOW() WHERE ...
abbrev pub set_deleted : Time → (Directory → Bool) → Rows → Rows
set_deleted now test [] = []
set_deleted now test (r ∷ rows) =
    (if test r then mark_deleted now r else r) ∷ set_deleted now test rows
