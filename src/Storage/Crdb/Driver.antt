-- ===== src/Storage/Crdb/Driver.antt =====
-- The calls of the CockroachDB driver.
use fertilesoil.Base.{
  suc, Bool, ◌&&◌, List, [], ◌∷◌, map, ◌==◌, if◌then◌else◌, is_some, is_none, length, take, drop,
  select, root_with_parent_directory, directory_without_parent, directory_not_found, Outcome, ok,
  err, err_with, panic, diverge, String, other, Action, pure, raise, lift, ◌>>=◌,
}
use fertilesoil.Base.Results.{read_only as read_only_driver}
use fertilesoil.Base.Int.{ℤ, pos, ◌+ℤ◌, ◌-ℤ◌, ltb_ℤ, eq_ℤ, wrap64}
use fertilesoil.Api.{DirectoryId, Time, Directory, has_id}
use fertilesoil.Storage.Options.{
  Setting, Options, get_page, get_page_size, get_page_offset, build_options,
}
use fertilesoil.Storage.Paging.{slice}
use fertilesoil.Storage.SortSlice.{sort_by_created}
use fertilesoil.Storage.Interface.{DirectoryAdmin}
use fertilesoil.Storage.Memory.Delete.{wrap_error, mark_deleted}
use fertilesoil.Storage.Memory.Read.{is_visible}
use fertilesoil.Storage.Memory.Write.{default_metadata}
use fertilesoil.Storage.Crdb.Table.{Rows, Db, query, execute, insert_row, update_row, set_deleted}
use fertilesoil.Storage.Crdb.Recursive.{
  with_recursive, base_row, parent_among, select_children, select_parents, select_parents_until,
}

pub record Driver : Type 0 where
  pub read_only : Bool
  pub fast_reads : Bool

-- NewDirectoryDriver, with the options WithReadOnly and WithFastReads.
abbrev pub new_directory_driver : Bool → Bool → Driver
new_directory_driver read_only fast_reads = record {
  read_only = read_only;
  fast_reads = fast_reads;
}

-- A query with %[1]s in it, as formatQuery completes it.
abbrev pub format_query : {A : Type 0} → Driver → String → (Rows → A) → Action Db A
format_query t = query t.fast_reads

-- `if t.readOnly { return nil, storage.ErrReadOnly }`
abbrev pub unless_read_only : {A : Type 0} → Driver → Action Db A → Action Db A
unless_read_only t m = if t.read_only then raise read_only_driver else m

unfoldable pub create_root : Driver → DirectoryId → Time → Directory → Action Db Directory
create_root t new_id now d = unless_read_only t (
    if is_some d.parent
    then raise root_with_parent_directory
    else execute "error inserting directory" (insert_row new_id now (default_metadata d)))

unfoldable pub create_directory : Driver → DirectoryId → Time → Directory → Action Db Directory
create_directory t new_id now d = unless_read_only t (
    if is_none d.parent
    then raise directory_without_parent
    else execute "error inserting directory" (insert_row new_id now (default_metadata d)))

unfoldable pub update_directory : Driver → Time → Directory → Action Db Directory
update_directory t now d =
    unless_read_only t (execute "error updating directory" (update_row now (default_metadata d)))

-- The first row of an answer, or sql.ErrNoRows.
abbrev pub first_row : Rows → Action Db Directory
first_row [] = raise directory_not_found
first_row (d ∷ ds) = pure d

unfoldable pub get_directory : Driver → DirectoryId → List Setting → Action Db Directory
get_directory t id settings = do
  let opts = build_options settings
  rows ← format_query t "error querying directory" (base_row opts id)
  first_row rows

-- LIMIT n OFFSET m; the database refuses a negative number.
abbrev pub limit_offset : {A : Type 0} → ℤ → ℤ → List A → Outcome (List A)
limit_offset (pos n) (pos m) xs = ok (take n (drop m xs))
limit_offset _ _ xs = err (other 4)

unfoldable pub select_roots : (Rows → Rows) → Options → Rows → Outcome (List DirectoryId)
select_roots scan opts rows =
    let roots = sort_by_created (select (λ d. is_visible opts d && is_none d.parent) (scan rows)) in
    limit_offset (get_page_size opts)
      (if eq_ℤ (get_page opts -ℤ pos 1) (pos 0) then pos 0 else get_page_offset opts)
      (map (λ (d : Directory). d.id) roots)

unfoldable pub list_roots : Driver → (Rows → Rows) → List Setting → Action Db (List DirectoryId)
list_roots t scan settings = do
  roots ← format_query t "error querying directory" (select_roots scan (build_options settings))
  lift (wrap_error "error querying directory" roots)

-- The statement of DeleteDirectory: the ids of the directory and of all that is below it by way of
-- rows that are not deleted, and then the update of these rows, with what it returns.
abbrev pub delete_base : DirectoryId → Rows → Rows
delete_base id rows = select (λ d. d.id == id && (is_none d.deleted_at && is_some d.parent)) rows

abbrev pub delete_step : Rows → Rows → Rows
delete_step rows last = select (λ d. parent_among last d && is_none d.deleted_at) rows

abbrev pub is_doomed : Rows → Directory → Bool
is_doomed ids d = is_none d.deleted_at && has_id d.id ids

abbrev pub delete_found : (Rows → Rows) → Time → Rows → Outcome Rows → Outcome Rows × Rows
delete_found scan now rows (ok ids) = (
  ok (map (mark_deleted now) (select (is_doomed ids) (scan rows))),
  set_deleted now (is_doomed ids) rows,
)
delete_found scan now rows (err e) = (err e, rows)
delete_found scan now rows (err_with ids e) = (err e, rows)
delete_found scan now rows (panic p) = (panic p, rows)
delete_found scan now rows diverge = (diverge, rows)

unfoldable pub delete_rows : (Rows → Rows) → Time → DirectoryId → Rows → Outcome Rows × Rows
delete_rows scan now id rows =
    delete_found scan now rows
      (with_recursive (suc (length rows)) (delete_base id rows) (delete_step (scan rows)))

-- `if len(affected) == 0`
abbrev pub or_not_found : Rows → Action Db (List Directory)
or_not_found [] = raise directory_not_found
or_not_found (d ∷ ds) = pure (d ∷ ds)

unfoldable pub delete_directory :
    Driver → (Rows → Rows) → Time → DirectoryId → Action Db (List Directory)
delete_directory t scan now id = do
  affected ← execute "error querying directory" (delete_rows scan now id)
  or_not_found affected

-- The end of GetParents, GetParentsUntilAncestor and GetChildren: the first row is the directory
-- asked for, and is skipped.
unfoldable pub chunk : Options → List DirectoryId → Outcome (List DirectoryId)
chunk o ids =
    let from = wrap64 (get_page_offset o +ℤ pos 1) in
    let limit = wrap64 (from +ℤ get_page_size o) in
    if ltb_ℤ from (pos (length ids))
    then slice ids from (if ltb_ℤ (pos (length ids)) limit then pos (length ids) else limit)
    else ok []

abbrev pub answer_ids : Options → Rows → Action Db (List DirectoryId)
answer_ids o [] = raise directory_not_found
answer_ids o (d ∷ ds) = lift (chunk o (map (λ (c : Directory). c.id) (d ∷ ds)))

unfoldable pub get_parents : Driver → DirectoryId → List Setting → Action Db (List DirectoryId)
get_parents t child settings = do
  let opts = build_options settings
  rows ← format_query t "error querying directory" (select_parents opts child)
  found ← lift rows
  answer_ids opts found

unfoldable pub get_parents_until_ancestor :
    Driver → DirectoryId → DirectoryId → List Setting → Action Db (List DirectoryId)
get_parents_until_ancestor t child ancestor settings = if child == ancestor then pure [] else (do
  let opts = build_options settings
  rows ← format_query t "error querying directory" (select_parents_until opts child ancestor)
  found ← lift rows
  answer_ids opts found)

unfoldable pub get_children :
    Driver → (Rows → Rows) → DirectoryId → List Setting → Action Db (List DirectoryId)
get_children t scan parent settings = do
  let opts = build_options settings
  rows ← format_query t "error querying directory" (select_children scan opts parent)
  found ← lift rows
  answer_ids opts found

-- What one call reads from outside.
pub record Surroundings : Type 0 where
  pub scan : Rows → Rows
  pub new_id : DirectoryId
  pub now : Time

-- The driver as a DirectoryAdmin.
abbrev pub crdb_driver : Driver → Surroundings → DirectoryAdmin Db
crdb_driver t e = record {
  get_directory = get_directory t;
  get_parents = get_parents t;
  get_parents_until_ancestor = get_parents_until_ancestor t;
  get_children = get_children t e.scan;
  list_roots = list_roots t e.scan;
  create_directory = create_directory t e.new_id e.now;
  update_directory = update_directory t e.now;
  delete_directory = delete_directory t e.scan e.now;
  create_root = create_root t e.new_id e.now;
}
