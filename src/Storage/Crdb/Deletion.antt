-- ===== src/Storage/Crdb/Deletion.antt =====
-- DeleteDirectory of the CockroachDB driver.
use fertilesoil.Base.{
  suc, ◌≤◌, ◌≡◌, sym, ap, ◌∙◌, Bool, true, false, ◌&&◌, ◌||◌, none, some, [], ◌∷◌, map, ◌==◌,
  is_some, is_none, length, arith, count, select, SameItems, count-select, count_ext, count_mono,
  select_ext-All, All, All-imp, ok, inl, inr, subst, Option-cases, Bool-cases, if◌then◌else◌,
  bind_ok, ==_iff, ==_self,
}
use fertilesoil.Api.{DirectoryId, Time, Directory, has_id}
use fertilesoil.Storage.Options.{build_options}
use fertilesoil.Storage.DirMap.{directory, lookup}
use fertilesoil.Storage.Memory.Delete.{mark_deleted}
use fertilesoil.Storage.Memory.Tree.{directories-lookup, lookup_if, lookup-IsTree, count-lookup_if}
use fertilesoil.Storage.Memory.Walk.{is_linked, has_id-count}
use fertilesoil.Storage.Memory.Children.{is_listed_child, listing-SameItems}
use fertilesoil.Storage.Crdb.Table.{Rows, Db, execute, set_deleted}
use fertilesoil.Storage.Crdb.Recursive.{with_recursive, parent_among}
use fertilesoil.Storage.Crdb.Driver.{
  Driver, delete_base, delete_step, is_doomed, delete_rows, or_not_found, delete_directory,
}
use fertilesoil.Storage.Crdb.Entries.{
  entries, IsTable, directories-entries, select_by_id, has_id-entries,
}
use fertilesoil.Storage.Crdb.Children.{linked_rows, linked_same, length-linked-le}
use fertilesoil.Storage.Crdb.Statements.{set_deleted_ext, All-scan, or_not_found_lem, execute_ok}
use fertilesoil.Storage.Crdb.Rounds.{with_recursive_ends}

-- The directory itself, and what is below it by way of directories that are not deleted.
abbrev pub is_below : Rows → DirectoryId → Directory → Bool
is_below rows id d = d.id == id || is_listed_child (entries rows) (build_options []) id d

-- The row with this id may be deleted: it is not deleted yet, and no root.
abbrev pub is_deletable : Directory → Bool
is_deletable d = is_none d.deleted_at && is_some d.parent

module _ (scan : Rows → Rows) (rows : Rows) (visits : SameItems (scan rows) rows)
    (table : IsTable rows) where
  count-delete_step :
      (last : Rows) (p : Directory → Bool)
      → count p (delete_step (scan rows) last)
        ≡ count
            (λ d. p d && parent_among last d)
            (linked_rows scan rows visits table (build_options []))
  unfolding build_options
  count-delete_step last p =
      count-select p (λ d. parent_among last d && is_none d.deleted_at) (scan rows)
      ∙ count_ext (λ d. p d && (parent_among last d && is_none d.deleted_at))
          (λ d. (p d && parent_among last d) && is_linked (build_options []) d) (scan rows)
          (λ d. elim (Option-cases d.parent) [
            | inl top ↦ ground arith
            | inr (q, up) ↦ ground arith
          ])
      ∙ sym (
          count-select (λ d. p d && parent_among last d) (is_linked (build_options [])) (scan rows))

  -- A row of the table is listed exactly when it is a descendant.
  has_id-listing :
      (id : DirectoryId) (listing : Rows) (d : Directory)
      → SameItems listing (select (is_listed_child (entries rows) (build_options []) id) rows)
      → lookup d.id (entries rows) ≡ some (directory d)
      → has_id d.id listing ≡ is_listed_child (entries rows) (build_options []) id d
  has_id-listing id listing d same entry =
      let listed = is_listed_child (entries rows) (build_options []) id in
      let found : count (λ (c : Directory). c.id == d.id) listing
          ≡ (if is_some (lookup_if listed d.id (entries rows)) then 1 else 0) =
        same (λ c. c.id == d.id)
        ∙ count-select (λ c. c.id == d.id) listed rows
        ∙ ap (count (λ (c : Directory). c.id == d.id && listed c)) (sym (directories-entries rows))
        ∙ count-lookup_if listed d.id (entries rows) table in
      ground (arith, has_id-count d.id listing)

  -- What the statement deletes, row by row.
  doomed_lem :
      (id : DirectoryId) (b : Directory) (listing : Rows) (d : Directory)
      → SameItems listing (select (is_listed_child (entries rows) (build_options []) id) rows)
      → lookup id (entries rows) ≡ some (directory b)
      → b.id ≡ id
      → b.deleted_at ≡ none
      → lookup d.id (entries rows) ≡ some (directory d)
      → is_doomed (b ∷ listing) d ≡ is_below rows id d
  unfolding build_options
  doomed_lem id b listing d same found is_id live entry = elim (Bool-cases (d.id == id)) [
    | inl here ↦
        let e : d.id ≡ id = (==_iff d.id id).0 here in
        let at_id : lookup d.id (entries rows) ≡ lookup id (entries rows) =
          ap (λ x. lookup x (entries rows)) e in
        let is_b : d ≡ b = ground arith in
        ground (arith, ==_self b.id, ap Directory.deleted_at is_b, ap Directory.id is_b)
    | inr other ↦
        let far : (b.id == d.id) ≡ false = ground (arith, ==_iff b.id d.id, ==_iff d.id id) in
        let through : has_id d.id listing ≡ is_listed_child (entries rows) (build_options []) id d =
          has_id-listing id listing d same entry in
        elim (Option-cases d.deleted_at) [ inl kept ↦ ground arith | inr (at, gone) ↦ ground arith ]
  ]

  -- The ids of the statement: those of the directory and of what is below it.
  doomed_ends :
      (id : DirectoryId) (b : Directory)
      → lookup id (entries rows) ≡ some (directory b)
      → is_deletable b ≡ true
      → (ids : Rows) × (with_recursive
            (suc (length rows))
            (delete_base id rows)
            (delete_step (scan rows))
          ≡ ok ids)
        × All (λ (d : Directory). is_doomed ids d ≡ is_below rows id d) rows
  doomed_ends id b found deletable =
      let opts = build_options [] in
      let (d, is_d, id_of_d) = lookup-IsTree (entries rows) id table found in
      let is_id : b.id ≡ id = ground arith in
      let base : delete_base id rows ≡ b ∷ [] =
        select_by_id is_deletable id rows table ∙ ground arith in
      let (listing, ends, inv) =
        with_recursive_ends (entries rows) id (is_linked opts)
          (linked_rows scan rows visits table opts) table (linked_same scan rows visits table opts)
          (delete_step (scan rows)) count-delete_step (length rows) b is_id
          (length-linked-le scan rows visits table opts) in
      let same : SameItems listing (select (is_listed_child (entries rows) opts id) rows) = λ p.
        listing-SameItems (entries rows) opts id (linked_rows scan rows visits table opts) listing
          table (linked_same scan rows visits table opts) inv p
        ∙ ap (λ ds. count p (select (is_listed_child (entries rows) opts id) ds))
            (directories-entries rows) in
      (
        b ∷ listing,
        rw base ends,
        All-imp (λ d. lookup d.id (entries rows) ≡ some (directory d))
            (λ d. is_doomed (b ∷ listing) d ≡ is_below rows id d) rows
            (λ d. doomed_lem id b listing d same found is_id (ground arith))
            (subst (All (λ (d : Directory). lookup d.id (entries rows) ≡ some (directory d)))
              (directories-entries rows) (directories-lookup (entries rows) table)),
      )

  any_below : (id : DirectoryId) → has_id id rows ≡ true → 1 ≤ count (is_below rows id) (scan rows)
  any_below id here =
      let there : 1 ≤ count (λ (d : Directory). d.id == id) rows =
        ground (arith, has_id-count id rows) in
      omega (
        arith,
        visits (is_below rows id),
        count_mono (λ d. d.id == id) (is_below rows id) rows (λ d h. ground arith),
      )

delete_rows_all :
    (scan : Rows → Rows) (now : Time) (rows : Rows) (id : DirectoryId) (b : Directory)
    → IsTable rows
    → SameItems (scan rows) rows
    → lookup id (entries rows) ≡ some (directory b)
    → is_deletable b ≡ true
    → delete_rows scan now id rows ≡ (
      ok (map (mark_deleted now) (select (is_below rows id) (scan rows))),
      set_deleted now (is_below rows id) rows,
    )
unfolding delete_rows
delete_rows_all scan now rows id b table visits found deletable =
    let (ids, ends, doomed) = doomed_ends scan rows visits table id b found deletable in
    let rows_marked = set_deleted_ext now (is_doomed ids) (is_below rows id) rows doomed in
    let answered =
      select_ext-All (is_doomed ids) (is_below rows id) (scan rows)
        (All-scan (is_doomed ids) (is_below rows id) scan rows visits doomed) in
    rw (ends, delete_rows)
      (rw rows_marked (
        ap (λ ds. (ok (map (mark_deleted now) ds), set_deleted now (is_below rows id) rows))
          answered))

-- On a table, when the database answers and a scan visits all rows, DeleteDirectory of a directory
-- that is live and not a root marks exactly that directory and what is below it by way of live
-- directories, and returns what it marked, each with the deletion time.
pub delete_directory_all :
    (t : Driver) (scan : Rows → Rows) (now : Time) (db : Db) (id : DirectoryId) (b : Directory)
    → db.failing ≡ none
    → IsTable db.rows
    → SameItems (scan db.rows) db.rows
    → lookup id (entries db.rows) ≡ some (directory b)
    → is_deletable b ≡ true
    → delete_directory t scan now id db ≡ (
      ok (map (mark_deleted now) (select (is_below db.rows id) (scan db.rows))),
      record db { rows = set_deleted now (is_below db.rows id) db.rows },
    )
unfolding delete_directory
delete_directory_all t scan now db id b up table visits found deletable =
    let here : has_id id db.rows ≡ true = ground (arith, has_id-entries id db.rows) in
    let done =
      execute_ok "error querying directory" (delete_rows scan now id) db
        (map (mark_deleted now) (select (is_below db.rows id) (scan db.rows)))
        (set_deleted now (is_below db.rows id) db.rows) up
        (delete_rows_all scan now db.rows id b table visits found deletable) in
    bind_ok (execute "error querying directory" (delete_rows scan now id)) or_not_found db
      (record db { rows = set_deleted now (is_below db.rows id) db.rows })
      (map (mark_deleted now) (select (is_below db.rows id) (scan db.rows))) done
    ∙ or_not_found_lem now (is_below db.rows id) (scan db.rows)
        (record db { rows = set_deleted now (is_below db.rows id) db.rows })
        (any_below scan db.rows visits table id here)
