-- ===== src/Storage/Crdb/Agreement.antt =====
-- The CockroachDB driver beside the in-memory driver: the table and the map of the same directories.
use fertilesoil.Base.{
  ◌≡◌, refl, ap, ◌∙◌, true, false, none, some, List, [], ◌∷◌, is_some, is_none, arith, Outcome, ok,
  inl, inr, Bool-cases, ==_iff, ◌==◌,
}
use fertilesoil.Api.{DirectoryId, Time, Directory, has_id}
use fertilesoil.Storage.Options.{Setting}
use fertilesoil.Storage.DirMap.{DirMap, directory, lookup, replace, store, load_or_store}
use fertilesoil.Storage.Memory.Write.{default_metadata, stamp, insert_new}
use fertilesoil.Storage.Crdb.Table.{Rows, Db, insert_row, set_columns, update_row, parent_exists}
use fertilesoil.Storage.Crdb.Driver.{
  Driver, create_root, create_directory, update_directory, get_directory,
}
use fertilesoil.Storage.Crdb.Entries.{entries, IsTable, has_id-entries}
use fertilesoil.Storage.Crdb.Statements.{execute_ok}
use fertilesoil.Storage.Crdb.Reads.{view, get_directory-agrees}
use fertilesoil.Storage.Memory.Write
use fertilesoil.Storage.Memory.Read

-- The same answer, and the same directories afterwards.
abbrev pub Agrees : {A : Type 0} → Outcome A × Db → Outcome A × DirMap → Type 0
Agrees (r, db) (r', m) = (r ≡ r') × (entries db.rows ≡ m)

module _ (new_id : DirectoryId) (now : Time) (d : Directory) (rows : Rows)
    (fresh : has_id new_id rows ≡ false) (known : parent_exists d rows ≡ true)
    (live : d.deleted_at ≡ none) where
  insert_row_lem :
      insert_row new_id now (default_metadata d) rows
      ≡ (ok (stamp new_id now now d), stamp new_id now now d ∷ rows)
  unfolding insert_row
  insert_row_lem = ground (arith, fresh, known, live)

  insert_new_lem :
      insert_new new_id now now d (entries rows)
      ≡ (ok (stamp new_id now now d), entries (stamp new_id now now d ∷ rows))
  unfolding insert_new load_or_store
  insert_new_lem = ground (arith, has_id-entries new_id rows)

-- An update leaves rows with other ids alone.
set_columns_absent :
    (now : Time) (d : Directory) (rows : Rows)
    → has_id d.id rows ≡ false
    → set_columns now d rows ≡ rows
set_columns_absent now d [] h = refl
set_columns_absent now d (r ∷ rows) h = ground (arith, set_columns_absent now d rows)

-- The object differs from the row in the columns that an update writes only.
abbrev pub KeepsRow : Directory → Directory → Type 0
KeepsRow d b =
    (d.id ≡ b.id)
    × (d.created_at ≡ b.created_at)
    × (d.deleted_at ≡ b.deleted_at)
    × (d.parent ≡ b.parent)

module _ (now : Time) (d b : Directory) (keeps : KeepsRow d b) where
  same_row :
      record b { name = d.name; metadata = d.metadata; updated_at = now }
      ≡ record d { updated_at = now }
  same_row =
      let (same_id, created, deleted, parent) = keeps in rw (same_id, created, deleted, parent) refl

  set_columns-replace :
      (rows : Rows)
      → IsTable rows
      → lookup d.id (entries rows) ≡ some (directory b)
      → entries (set_columns now d rows)
        ≡ replace d.id (directory (record d { updated_at = now })) (entries rows)
  set_columns-replace [] table found = absurd (ground arith)
  set_columns-replace (r ∷ rows) (same, fresh, parent, table) found =
      elim (Bool-cases (r.id == d.id)) [
        | inl here ↦
            let is_b : r ≡ b = ground arith in
            let absent : has_id d.id rows ≡ false =
              ground (arith, has_id-entries d.id rows, ==_iff r.id d.id) in
            let written : record r { name = d.name; metadata = d.metadata; updated_at = now }
                ≡ record d { updated_at = now } =
              ap
                (λ (c : Directory). record c {
                  name = d.name;
                  metadata = d.metadata;
                  updated_at = now;
                })
                is_b
              ∙ same_row in
            rw here (
              rw (set_columns_absent now d rows absent)
                (ap (λ c. (r.id, directory c) ∷ entries rows) written))
        | inr other ↦ ground (arith, set_columns-replace rows table)
      ]

module _ (t : Driver) (now : Time) (db : Db) (up : db.failing ≡ none)
    (writable : t.read_only ≡ false) where
  creates-agree :
      (new_id : DirectoryId) (d : Directory)
      → has_id new_id db.rows ≡ false
      → parent_exists d db.rows ≡ true
      → d.deleted_at ≡ none
      → Agrees
          (create_root t new_id now d db)
          (Write.create_root new_id now now d (entries db.rows))
        × Agrees
            (create_directory t new_id now d db)
            (Write.create_directory new_id now now d (entries db.rows))
  unfolding create_root create_directory Write.create_root Write.create_directory
  creates-agree new_id d fresh known live =
      let inserted =
        execute_ok "error inserting directory" (insert_row new_id now (default_metadata d)) db
          (stamp new_id now now d) (stamp new_id now now d ∷ db.rows) up
          (insert_row_lem new_id now d db.rows fresh known live) in
      let made = insert_new_lem new_id now d db.rows fresh known live in
      rw writable (elim (Bool-cases (is_some d.parent)) [
        | inr no_parent ↦
            let top : is_none d.parent ≡ true = ground arith in
            rw no_parent (rw top (rw inserted (rw made ((refl, refl), (refl, refl)))))
        | inl has_parent ↦
            let below : is_none d.parent ≡ false = ground arith in
            rw has_parent (rw below (rw inserted (rw made ((refl, refl), (refl, refl)))))
      ])

  update_directory-Agrees :
      (d b : Directory)
      → IsTable db.rows
      → lookup d.id (entries db.rows) ≡ some (directory b)
      → KeepsRow d b
      → Agrees (update_directory t now d db) (Write.update_directory now d (entries db.rows))
  unfolding update_directory update_row Write.update_directory store
  update_directory-Agrees d b table found keeps =
      let there : has_id d.id db.rows ≡ true = ground (arith, has_id-entries d.id db.rows) in
      let written = set_columns-replace now (default_metadata d) b keeps db.rows table found in
      rw writable (rw up (rw there (rw found (refl, written))))

  get_directory-current :
      (id : DirectoryId) (settings : List Setting)
      → t.fast_reads ≡ false
      → IsTable db.rows
      → Agrees
          (get_directory t id settings db)
          (Read.get_directory (entries db.rows) id settings, entries db.rows)
  get_directory-current id settings current table =
      let seen : view t db ≡ db.rows = rw current refl in
      let same : get_directory t id settings db
          ≡ (Read.get_directory (entries db.rows) id settings, db) =
        get_directory-agrees t db up (rw seen table) id settings
        ∙ ap (λ rows. (Read.get_directory (entries rows) id settings, db)) seen in
      rw same (refl, refl)

  -- A driver that may write and reads the current state, on a database that answers and a table, gives what
  -- the in-memory driver gives on the same directories, errors included, and leaves the same
  -- directories, when both read the clock alike: CreateRoot and CreateDirectory with a new id, of a live
  -- directory whose parent, if it has one, is there; UpdateDirectory of an object that differs from the
  -- stored one in name, metadata and update time only; and every GetDirectory.
  pub refines_memory :
      (new_id : DirectoryId) (d u b : Directory) (id : DirectoryId) (settings : List Setting)
      → t.fast_reads ≡ false
      → IsTable db.rows
      → has_id new_id db.rows ≡ false
      → parent_exists d db.rows ≡ true
      → d.deleted_at ≡ none
      → lookup u.id (entries db.rows) ≡ some (directory b)
      → KeepsRow u b
      → Agrees
          (create_root t new_id now d db)
          (Write.create_root new_id now now d (entries db.rows))
        × Agrees
            (create_directory t new_id now d db)
            (Write.create_directory new_id now now d (entries db.rows))
        × Agrees (update_directory t now u db) (Write.update_directory now u (entries db.rows))
        × Agrees
            (get_directory t id settings db)
            (Read.get_directory (entries db.rows) id settings, entries db.rows)
  refines_memory new_id d u b id settings current table fresh known live found keeps =
      let (roots, below) = creates-agree new_id d fresh known live in
      (
        roots,
        below,
        update_directory-Agrees u b table found keeps,
        get_directory-current id settings current table,
      )
