-- ===== src/App/Seeding.antt =====
-- The full reconciliation of the controller, over the table of tracked directories.
use fertilesoil.Base.{
  ◌≡◌, refl, true, false, Option, none, some, List, [], ◌∷◌, ◌++◌, ◌==◌, if◌then◌else◌, is_some,
  arith, All, ok, inl, inr, Bool-cases, Option-cases,
}
use fertilesoil.Api.{DirectoryId, Time, Directory, is_deleted, create, DirectoryEvent}
use fertilesoil.App.Interfaces.{ReadOnlyClient}
use fertilesoil.App.SqlStorage.{
  Rows, Db, find_row, compare_deleted_at, is_directory_tracked, is_directory_info_updated,
  create_directory,
}
use fertilesoil.App.Controller.{
  Controller, event_of, persist_directory, persist_if_up_to_date, persist_all,
  initialize_directories,
}
use fertilesoil.App.Tracking.{create_directory_lem}
use fertilesoil.App.Events.{with_sql}

-- No row is marked as deleted.
abbrev pub AllLive : Rows → Type 0
AllLive rows = (x : DirectoryId) (at : Option Time) → find_row x rows ≡ some at → at ≡ none

-- The table with a row for this id.
abbrev pub track : DirectoryId → Rows → Rows
track x rows = if is_some (find_row x rows) then rows else (x, none) ∷ rows

abbrev pub track_all : List DirectoryId → Rows → Rows
track_all [] rows = rows
track_all (x ∷ xs) rows = track_all xs (track x rows)

track-AllLive : (x : DirectoryId) (rows : Rows) → AllLive rows → AllLive (track x rows)
track-AllLive x rows live y at found = elim (Bool-cases (is_some (find_row x rows))) [
  | inl old ↦ live y at (ground arith)
  | inr new ↦ elim (Bool-cases (x == y)) [
    | inl same ↦ ground arith
    | inr other ↦ live y at (ground arith)
  ]
]

-- An id that has a row keeps it.
find_row-track :
    (x y : DirectoryId) (rows : Rows)
    → is_some (find_row y rows) ≡ true
    → is_some (find_row y (track x rows)) ≡ true
find_row-track x y rows h = ground arith

find_row-track_self : (x : DirectoryId) (rows : Rows) → is_some (find_row x (track x rows)) ≡ true
find_row-track_self x rows = ground arith

find_row-track_all :
    (y : DirectoryId) (xs : List DirectoryId) (rows : Rows)
    → is_some (find_row y rows) ≡ true
    → is_some (find_row y (track_all xs rows)) ≡ true
find_row-track_all y [] rows h = h
find_row-track_all y (x ∷ xs) rows h =
    find_row-track_all y xs (track x rows) (find_row-track x y rows h)

-- Every id of the list ends with a row.
track_all-All :
    (xs : List DirectoryId) (rows : Rows)
    → All (λ x. is_some (find_row x (track_all xs rows)) ≡ true) xs
track_all-All [] rows = tt
track_all-All (x ∷ xs) rows = (
  find_row-track_all x xs (track x rows) (find_row-track_self x rows),
  track_all-All xs (track x rows),
)

-- The client gives a directory with this id that is not deleted.
abbrev pub Answers : ReadOnlyClient → DirectoryId → Type 0
Answers client x =
    (d : Directory) × (client.get_directory x ≡ ok d) × (d.id ≡ x) × (is_deleted d ≡ false)

module _ (c : Controller Db) (answers : Time → ReadOnlyClient) (now : Time)
    (known : c.client ≡ some answers)
    (accepts : (ev : DirectoryEvent) → c.reconcile ev ≡ ok tt) where
  -- A directory that has a live row is up to date.
  up_to_date_lem :
      (db : Db) (d : Directory)
      → db.faults ≡ []
      → AllLive db.rows
      → is_deleted d ≡ false
      → is_directory_info_updated d db ≡ (ok (is_some (find_row d.id db.rows)), db)
  unfolding is_directory_info_updated is_directory_tracked compare_deleted_at
  up_to_date_lem db d up live fresh = elim (Option-cases (find_row d.id db.rows)) [
    | inl new ↦ ground arith
    | inr (at, old) ↦
        let kept : at ≡ none = live d.id at old in
        elim (Option-cases d.deleted_at) [ inl never ↦ ground arith | inr (t, gone) ↦ ground arith ]
  ]

  -- One directory: it gets a row if it has none, and then the reconciler is told.
  persist_one :
      (db : Db) (seen : List DirectoryEvent) (x : DirectoryId)
      → db.faults ≡ []
      → AllLive db.rows
      → Answers (answers now) x
      → (events : List DirectoryEvent) × (persist_if_up_to_date (with_sql now c) now x (db, seen)
          ≡ (ok tt, (record db { rows = track x db.rows }, events)))
  unfolding persist_if_up_to_date persist_directory
  persist_one db seen x up live (d, answer, is_x, fresh) =
      let checked = up_to_date_lem db d up live fresh in
      elim (Bool-cases (is_some (find_row d.id db.rows))) [
        | inl old ↦
            let kept : track x db.rows ≡ db.rows = ground arith in
            (seen, rw kept (ground (arith, known, answer, checked, old)))
        | inr new ↦
            let added : track x db.rows ≡ (d.id, none) ∷ db.rows = ground arith in
            let made : create_directory d db ≡ (ok d, record db { rows = (d.id, none) ∷ db.rows }) =
              ground (arith, create_directory_lem db up d) in
            (
              seen ++ event_of create now d ∷ [],
              rw added (
                  ground (
                    arith,
                    known,
                    answer,
                    checked,
                    new,
                    fresh,
                    made,
                    accepts (event_of create now d),
                  )),
            )
      ]

  persist_all_lem :
      (xs : List DirectoryId) (db : Db) (seen : List DirectoryEvent)
      → db.faults ≡ []
      → AllLive db.rows
      → All (Answers (answers now)) xs
      → (events : List DirectoryEvent) × (persist_all (with_sql now c) now xs (db, seen)
          ≡ (ok tt, (record db { rows = track_all xs db.rows }, events)))
  unfolding persist_all
  persist_all_lem [] db seen up live others = (seen, refl)
  persist_all_lem (x ∷ xs) db seen up live (answer, others) =
      let (events, one) = persist_one db seen x up live answer in
      let (later, rest) =
        persist_all_lem xs (record db { rows = track x db.rows }) events up
          (track-AllLive x db.rows live) others in
      (later, ground (arith, one, rest))

  -- The rows after a full reconciliation.
  pub initialize_directories_rows :
      (db : Db) (seen : List DirectoryEvent) (subdirs : List DirectoryId)
      → db.faults ≡ []
      → AllLive db.rows
      → (answers now).get_children c.base_dir ≡ ok subdirs
      → All (Answers (answers now)) (c.base_dir ∷ subdirs)
      → (events : List DirectoryEvent) × (initialize_directories (with_sql now c) now (db, seen)
          ≡ (ok tt, (record db { rows = track_all (c.base_dir ∷ subdirs) db.rows }, events)))
  unfolding initialize_directories
  initialize_directories_rows db seen subdirs up live listed (answer, others) =
      let (events, one) = persist_one db seen c.base_dir up live answer in
      let (later, rest) =
        persist_all_lem subdirs (record db { rows = track c.base_dir db.rows }) events up
          (track-AllLive c.base_dir db.rows live) others in
      (later, ground (arith, known, listed, one, rest))

  -- A full reconciliation against a client that answers the base directory and its children, none of them
  -- deleted, with a reconciler that takes every event, on a database that answers and has no row that is
  -- marked as deleted, succeeds: the table then has a row for the base directory and for each child that the
  -- client lists, and every row that it had.
  pub initialize_directories_tracks :
      (db : Db) (seen : List DirectoryEvent) (subdirs : List DirectoryId)
      → db.faults ≡ []
      → AllLive db.rows
      → (answers now).get_children c.base_dir ≡ ok subdirs
      → All (Answers (answers now)) (c.base_dir ∷ subdirs)
      → (after : Db) × (events : List DirectoryEvent) × (initialize_directories
            (with_sql now c)
            now
            (db, seen)
          ≡ (ok tt, (after, events)))
        × All (λ x. is_some (find_row x after.rows) ≡ true) (c.base_dir ∷ subdirs)
        × ((y : DirectoryId)
            → is_some (find_row y db.rows) ≡ true
            → is_some (find_row y after.rows) ≡ true)
  initialize_directories_tracks db seen subdirs up live listed answered =
      let (later, done) = initialize_directories_rows db seen subdirs up live listed answered in
      (
        record db { rows = track_all (c.base_dir ∷ subdirs) db.rows },
        later,
        done,
        track_all-All (c.base_dir ∷ subdirs) db.rows,
        λ y h. find_row-track_all y (c.base_dir ∷ subdirs) db.rows h,
      )
