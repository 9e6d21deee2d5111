-- ===== src/App/SqlStorage.antt =====
-- The application's own table of tracked directories (app/v1/sql/storage.go and its migration).
-- The rows are an association list from the primary key `id` to `deleted_at`. The faults tell
-- how each of the next statements ends, and the statements after those succeed; `now` is what
-- NOW() gives.
use fertilesoil.Base.{
  ℕ, Bool, false, not, ◌&&◌, Option, none, some, List, [], ◌∷◌, ◌==◌, if◌then◌else◌, is_some,
  is_none, length, Error, Outcome, expected_one_row, wrap, ok, err, err_with, String, Action, pure,
  raise, ◌>>=◌,
}
use fertilesoil.Api.{DirectoryId, Time, is_zero, time_ne, Directory}
use fertilesoil.App.Interfaces.{AppStorage}

abbrev pub Rows : Type 0
Rows = List (DirectoryId × Option Time)

-- How a statement ends: it succeeds; the database refuses it; or it has run, and its answer cannot
-- be read, by a call that fails or since Next finds no rows any more.
pub data Fault : Type 0 where
  succeeds : Fault
  refused : Error → Fault
  unread : Error → Fault
  cut_off : Error → Fault

pub record Db : Type 0 where
  pub rows : Rows
  pub faults : List Fault

abbrev pub find_row : DirectoryId → Rows → Option (Option Time)
find_row id [] = none
find_row id ((k, at) ∷ rows) = if k == id then some at else find_row id rows

-- A statement that only reads, and answers with one row; `text` is the message that wraps the
-- error of the statement and of Scan.
abbrev pub query : {A : Type 0} → String → (Rows → A) → Action Db A
query text f db = elim db.faults [
  | [] ↦ (ok (f db.rows), db)
  | fault ∷ later ↦ elim fault [
    | succeeds ↦ (ok (f db.rows), record db { faults = later })
    | refused e ↦ (err (wrap text e), record db { faults = later })
    | unread e ↦ (err (wrap text e), record db { faults = later })
    | cut_off e ↦ (err (wrap text e), record db { faults = later })
  ]
]

-- A statement that writes, `text` the message of its error; what the code makes of an answer that
-- it cannot read, and of one that is cut off.
abbrev pub execute :
    {A : Type 0}
    → String
    → (A → Error → Outcome A)
    → (A → Error → Outcome A)
    → (Rows → A × Rows)
    → Action Db A
execute text on_unread on_cut_off f db = elim db.faults [
  | [] ↦ (ok (f db.rows).0, record db { rows = (f db.rows).1 })
  | fault ∷ later ↦ elim fault [
    | succeeds ↦ (ok (f db.rows).0, record { rows = (f db.rows).1; faults = later })
    | refused e ↦ (err (wrap text e), record db { faults = later })
    | unread e ↦ (on_unread (f db.rows).0 e, record { rows = (f db.rows).1; faults = later })
    | cut_off e ↦ (on_cut_off (f db.rows).0 e, record { rows = (f db.rows).1; faults = later })
  ]
]

unfoldable pub is_directory_tracked : DirectoryId → Action Db Bool
is_directory_tracked id =
    query "error checking if directory exists" (λ rows. is_some (find_row id rows))

-- `observed` is a sql.NullTime, `expected` a *time.Time.
unfoldable pub compare_deleted_at : Option Time → Option Time → Bool
compare_deleted_at observed none = is_none observed
compare_deleted_at none (some expected) = is_zero expected
compare_deleted_at (some observed) (some expected) =
    if is_zero expected then false else not (time_ne observed expected)

abbrev no_rows : Option (Option Time) → Option Time
no_rows none = none
no_rows (some at) = at

unfoldable pub is_directory_info_updated : Directory → Action Db Bool
unfolding is_directory_tracked compare_deleted_at
is_directory_info_updated d = do
  tracked ← is_directory_tracked d.id
  if tracked
      then (do
        deleted_at ←
            query "error checking if directory exists" (λ rows. no_rows (find_row d.id rows))
        pure (compare_deleted_at deleted_at d.deleted_at))
      else pure false

-- INSERT INTO tracked_directories (id) VALUES ($1) ON CONFLICT DO NOTHING, with the count of rows
abbrev pub insert_row : DirectoryId → Rows → ℕ × Rows
insert_row id rows = if is_some (find_row id rows) then (0, rows) else (1, (id, none) ∷ rows)

-- RowsAffected.
abbrev count_error : ℕ → Error → Outcome ℕ
count_error n e = err (wrap "error getting rows affected" e)

unfoldable pub create_directory : Directory → Action Db Directory
create_directory d = do
  rows ← execute "error inserting directory" count_error count_error (insert_row d.id)
  if rows == 1 then pure d else raise (expected_one_row rows)

unfoldable pub update_directory : Directory → Action Db Directory
update_directory d = pure d

-- What `rows.Scan(&d.Id, &d.DeletedAt)` makes of the zero Directory.
abbrev pub scanned : DirectoryId → Time → Directory
scanned id at = record {
  created_at = record { instant = 0; location = 0 };
  deleted_at = some at;
  id = id;
  metadata = none;
  name = "";
  parent = none;
  updated_at = record { instant = 0; location = 0 };
}

-- UPDATE ... SET deleted_at = NOW() WHERE deleted_at IS NULL AND id = $1 RETURNING id, deleted_at
unfoldable pub delete_rows : Time → DirectoryId → Rows → List Directory × Rows
delete_rows now id [] = ([], [])
delete_rows now id ((k, at) ∷ rows) =
    let (affected, rest) = delete_rows now id rows in
    if k == id && is_none at
    then (scanned k now ∷ affected, (k, some now) ∷ rest)
    else (affected, (k, at) ∷ rest)

-- Scan, which is called for each row.
abbrev scan_error : List Directory → Error → Outcome (List Directory)
scan_error [] e = ok []
scan_error (d ∷ ds) e = err (wrap "error scanning directory" e)

-- The loop ends when Next finds no more rows, and the code does not ask rows.Err for the reason.
abbrev next_error : List Directory → Error → Outcome (List Directory)
next_error ds e = ok []

unfoldable pub delete_directory : Time → DirectoryId → Action Db (List Directory)
unfolding delete_rows
delete_directory now id = do
  affected ← execute "error deleting directory" scan_error next_error (delete_rows now id)
  if length affected == 1
      then pure affected
      else (λ db. (err_with affected (expected_one_row (length affected)), db))

-- `sqlstorage` as an AppStorage.
abbrev pub sql_storage : Time → AppStorage Db
sql_storage now = record {
  create_directory = create_directory;
  update_directory = update_directory;
  delete_directory = delete_directory now;
  is_directory_tracked = is_directory_tracked;
  is_directory_info_updated = is_directory_info_updated;
}
