-- ===== src/Storage/Crdb/Reads.antt =====
-- GetDirectory of the CockroachDB driver, and the rows that a query reads.
use fertilesoil.Base.{
  ◌≡◌, refl, ap, ◌∙◌, none, List, [], ◌∷◌, arith, ok, inl, inr, Option-cases, if◌then◌else◌,
}
use fertilesoil.Api.{DirectoryId, Directory}
use fertilesoil.Storage.Options.{Setting, build_options}
use fertilesoil.Storage.DirMap.{lookup}
use fertilesoil.Storage.Memory.Read.{is_visible}
use fertilesoil.Storage.Memory.Read
use fertilesoil.Storage.Memory.Tree.{lookup_if, lookup-IsTree}
use fertilesoil.Storage.Crdb.Table.{Rows, Db}
use fertilesoil.Storage.Crdb.Recursive.{base_row}
use fertilesoil.Storage.Crdb.Driver.{Driver, first_row, get_directory}
use fertilesoil.Storage.Crdb.Entries.{entries, IsTable, select_by_id}

-- The rows that the queries of a driver read.
abbrev pub view : Driver → Db → Rows
view t db = if t.fast_reads then db.follower else db.rows

module _ (t : Driver) (db : Db) (up : db.failing ≡ none) (table : IsTable (view t db)) where
  get_directory_row :
      (id : DirectoryId) (settings : List Setting)
      → get_directory t id settings db
        ≡ first_row (base_row (build_options settings) id (view t db)) db
  unfolding get_directory
  get_directory_row id settings = rw up refl

  -- On a table GetDirectory answers what the in-memory driver does.
  pub get_directory-agrees :
      (id : DirectoryId) (settings : List Setting)
      → get_directory t id settings db ≡ (Read.get_directory (entries (view t db)) id settings, db)
  unfolding Read.get_directory
  get_directory-agrees id settings =
      get_directory_row id settings
      ∙ rw (select_by_id (is_visible (build_options settings)) id (view t db) table)
          (elim (Option-cases (lookup id (entries (view t db)))) [
            | inl missing ↦ ground arith
            | inr (v, found) ↦
                let (d, is_d, same) = lookup-IsTree (entries (view t db)) id table found in
                ground arith
          ])

  -- A directory that is found is the one row of the base query.
  pub base_row_found :
      (id : DirectoryId) (settings : List Setting) (b : Directory)
      → get_directory t id settings db ≡ (ok b, db)
      → (base_row (build_options settings) id (view t db) ≡ b ∷ []) × (b.id ≡ id)
  base_row_found id settings b found =
      elim (Option-cases
        (lookup_if (is_visible (build_options settings)) id (entries (view t db)))) [
          | inl missing ↦ absurd (
              ground (
                arith,
                get_directory_row id settings,
                select_by_id (is_visible (build_options settings)) id (view t db) table,
              ))
          | inr (d, there) ↦
              let base : base_row (build_options settings) id (view t db) ≡ d ∷ [] =
                select_by_id (is_visible (build_options settings)) id (view t db) table
                ∙ rw there refl in
              let same : d ≡ b = ground (arith, get_directory_row id settings) in
              elim (Option-cases (lookup id (entries (view t db)))) [
                | inl none_there ↦ absurd (ground arith)
                | inr (v, entry) ↦
                    let (c, is_c, is_id) = lookup-IsTree (entries (view t db)) id table entry in
                    (base ∙ ap (λ x. x ∷ []) same, ground arith)
              ]
        ]
