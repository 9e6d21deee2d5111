-- ===== src/App/Retried.antt =====
-- What becomes of a directory whose creation the controller has tried to reconcile
-- (persistDirectory of app/v1/controllerimpl.go, on the table of app/v1/sql/storage.go).
use fertilesoil.Base.{◌≡◌, ap, sym, subst, false, none, List, [], ◌∷◌, err, expected_one_row, arith}
use fertilesoil.Api.{Time, Directory, is_deleted, DirectoryEvent}
use fertilesoil.App.SqlStorage.{
  Rows, Fault, succeeds, refused, unread, cut_off, Db, find_row, create_directory,
}
use fertilesoil.App.Controller.{Controller, World, persist_directory}
use fertilesoil.App.Events.{with_sql}

-- The statement runs, whether or not its answer can be read.
abbrev pub Runs : Fault → Type 0
Runs succeeds = Unit
Runs (refused e) = ⊥
Runs (unread e) = Unit
Runs (cut_off e) = Unit

module _ (c : Controller Db) (clock now later : Time) (rows : Rows) (seen : List DirectoryEvent)
    (d d' : Directory) where
  abbrev tried : Fault → World Db
  tried fault =
      (persist_directory (with_sql clock c) now d
        (record { rows = rows; faults = fault ∷ [] }, seen)).1

  tried_table :
      (fault : Fault)
      → Runs fault
      → is_deleted d ≡ false
      → find_row d.id rows ≡ none
      → (tried fault).0 ≡ record { rows = (d.id, none) ∷ rows; faults = [] }
  unfolding persist_directory create_directory
  tried_table succeeds runs live new = ground arith
  tried_table (refused e) runs live new = absurd runs
  tried_table (unread e) runs live new = ground arith
  tried_table (cut_off e) runs live new = ground arith

  again_fails :
      (told : List DirectoryEvent)
      → is_deleted d' ≡ false
      → d'.id ≡ d.id
      → persist_directory
          (with_sql clock c)
          later
          d'
          (record { rows = (d.id, none) ∷ rows; faults = [] }, told)
        ≡ (err (expected_one_row 0), (record { rows = (d.id, none) ∷ rows; faults = [] }, told))
  unfolding persist_directory create_directory
  again_fails told live same = ground arith

  -- When the insertion of a live and untracked directory runs, the directory is tracked from then on, also
  -- when the count of rows cannot be read, and however the reconciler ends. A later attempt to persist a live
  -- directory with this id, on a database that answers, ends in an error, changes nothing, and hands nothing
  -- to the reconciler.
  pub persist_directory_once :
      (fault : Fault)
      → Runs fault
      → is_deleted d ≡ false
      → find_row d.id rows ≡ none
      → is_deleted d' ≡ false
      → d'.id ≡ d.id
      → ((tried fault).0.rows ≡ (d.id, none) ∷ rows)
        × (persist_directory (with_sql clock c) later d' (tried fault)
            ≡ (err (expected_one_row 0), tried fault))
  persist_directory_once fault runs live new live' same =
      let table = tried_table fault runs live new in
      (
        ap (λ (db : Db). db.rows) table,
        subst
            (λ db.
              persist_directory (with_sql clock c) later d' (db, (tried fault).1)
              ≡ (err (expected_one_row 0), (db, (tried fault).1)))
            (sym table) (again_fails (tried fault).1 live' same),
      )
