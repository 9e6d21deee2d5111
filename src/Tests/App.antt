-- ===== src/Tests/App.antt =====
-- The theorems on the application framework.
use fertilesoil.Base.{
  List, All, is_some, Bool-cases, inl, inr, arith, ◌≡◌, ◌↔◌, refl, true, none, some, [], ◌∷◌, ok,
  err, other, wrap, expected_one_row, ◌&&◌, ◌==◌, if◌then◌else◌,
}
use fertilesoil.Base.Int.{pos}
use fertilesoil.Api.{DirectoryId, Time, Directory, create, update, delete, DirectoryEvent}
use fertilesoil.App.SqlStorage.{
  succeeds, refused, unread, Db, find_row, delete_directory, is_directory_info_updated, scanned,
  sql_storage,
}
use fertilesoil.App.Controller.{
  Controller, event_of, persist_directory, process_incoming_event, initialize_directories, Signal,
  tick, received, run_loop, run,
}
use fertilesoil.App.Interfaces.{ReadOnlyClient}
use fertilesoil.App.Seeding.{AllLive, initialize_directories_tracks}
use fertilesoil.App.Once.{Announced}
use fertilesoil.App.Runs.{run-Announced}
use fertilesoil.App.Retried.{persist_directory_once}
use fertilesoil.App.Tracking.{
  HasKeys, is_live_row, nonzero, delete_directory_lem, is_directory_info_updated_iff,
}
use fertilesoil.App.Events.{with_sql, process_new, run_loop_tracked, process_deleted}
use fertilesoil.Tests.{time_at, plain, root_dir, child_dir}

-- Directory 1 is tracked, directory 5 has been deleted.
abbrev db : Db
db = record { rows = (1, none) ∷ (5, some (time_at 9)) ∷ []; faults = [] }

db-HasKeys : HasKeys db.rows
db-HasKeys = (refl, (refl, tt))

abbrev gone : Directory
gone = record (plain 1 none 10) { deleted_at = some (time_at 30) }

abbrev controller : Controller Db
controller = record {
  client = none;
  base_dir = 1;
  store = sql_storage (time_at 7);
  reconcile = λ ev. ok tt;
  minimum_interval = pos 5;
  maximum_interval = pos 10;
  interval_unit = pos 60_000_000_000;
}

delete_directory_lem_example :
    ((delete_directory (time_at 30) 1 db).0 ≡ ok (scanned 1 (time_at 30) ∷ []))
    × ((x : DirectoryId)
        → find_row x (delete_directory (time_at 30) 1 db).1.rows ≡ (
            if x == 1 && is_live_row 1 db.rows
            then some (some (time_at 30))
            else find_row x db.rows))
delete_directory_lem_example = delete_directory_lem db (time_at 30) 1 refl db-HasKeys

is_directory_info_updated_iff_example :
    ((is_directory_info_updated gone db).0 ≡ ok true)
    ↔ (find_row 1 db.rows ≡ some (nonzero gone.deleted_at))
is_directory_info_updated_iff_example = is_directory_info_updated_iff db gone refl

process_new_example :
    process_incoming_event
      (with_sql (time_at 7) controller)
      (time_at 7)
      (some (event_of create (time_at 6) child_dir))
      (db, [])
    ≡ (
      ok tt,
      (record db { rows = (2, none) ∷ db.rows }, event_of create (time_at 7) child_dir ∷ []),
    )
process_new_example =
    process_new controller (time_at 7) db refl [] (event_of create (time_at 6) child_dir) refl refl
      refl

run_loop_tracked_example :
    run_loop
      (with_sql (time_at 7) controller)
      ((time_at 7, received (some (event_of update (time_at 6) root_dir)))
        ∷ (time_at 8, received none)
        ∷ [])
      (db, [])
    ≡ (err (wrap "error persisting directory" (expected_one_row 0)), (db, []))
run_loop_tracked_example =
    run_loop_tracked controller (time_at 7) db refl [] (event_of update (time_at 6) root_dir)
      ((time_at 8, received none) ∷ []) refl refl

process_deleted_example :
    process_incoming_event
      (with_sql (time_at 7) controller)
      (time_at 7)
      (some (event_of delete (time_at 6) gone))
      (db, [])
    ≡ (ok tt, ((delete_directory (time_at 7) 1 db).1, event_of delete (time_at 7) gone ∷ []))
process_deleted_example =
    process_deleted controller (time_at 7) db refl [] (event_of delete (time_at 6) gone) db-HasKeys
      refl refl

-- A client that gives a live directory for every id, and two children.
abbrev answering : ReadOnlyClient
answering = record {
  get_directory = λ id. ok (plain id none 10);
  get_children = λ id. ok (2 ∷ 3 ∷ []);
}

abbrev seeded : Controller Db
seeded = record controller { client = some (λ at. answering) }

abbrev live_db : Db
live_db = record { rows = (2, none) ∷ []; faults = [] }

live_db-AllLive : AllLive live_db.rows
live_db-AllLive x at found = elim (Bool-cases (2 == x)) [
  | inl same ↦ ground arith
  | inr apart ↦ absurd (ground arith)
]

initialize_directories_tracks_example :
    (after : Db) × (events : List DirectoryEvent) × (initialize_directories
        (with_sql (time_at 7) seeded)
        (time_at 7)
        (live_db, [])
      ≡ (ok tt, (after, events)))
    × All (λ x. is_some (find_row x after.rows) ≡ true) (1 ∷ 2 ∷ 3 ∷ [])
    × ((y : DirectoryId)
        → is_some (find_row y live_db.rows) ≡ true
        → is_some (find_row y after.rows) ≡ true)
initialize_directories_tracks_example =
    initialize_directories_tracks seeded (λ at. answering) (time_at 7) refl (λ ev. refl) live_db []
      (2 ∷ 3 ∷ []) refl live_db-AllLive refl
      (
        (plain 1 none 10, refl, refl, refl),
        ((plain 2 none 10, refl, refl, refl), ((plain 3 none 10, refl, refl, refl), tt)),
      )

-- A client that answers at the start, and no longer at the tick.
abbrev changing : Time → ReadOnlyClient
changing at =
    if at.instant == 20
    then record { get_directory = λ id. err (other 0); get_children = λ id. err (other 0) }
    else answering

-- A run that seeds the table, while the database refuses one statement of it, and then stops.
abbrev signals : List (Time × Signal)
signals =
    (time_at 15, received (some (event_of delete (time_at 6) gone))) ∷ (time_at 20, tick 2) ∷ []

abbrev faulty_db : Db
faulty_db = record { rows = []; faults = succeeds ∷ succeeds ∷ refused (other 1) ∷ [] }

run-Announced_example :
    Announced
      (run
        (with_sql (time_at 7) (record controller { client = some changing }))
        (time_at 10)
        1
        signals
        (faulty_db, [])).1
run-Announced_example =
    run-Announced (time_at 7) (record controller { client = some changing }) (time_at 10) 1 signals
      faulty_db [] (refl, (refl, (refl, tt))) (tt, λ x. (refl, refl))

abbrev unread_db : Db
unread_db = record { rows = db.rows; faults = unread (other 0) ∷ [] }

abbrev failing : Controller Db
failing = record controller { reconcile = λ ev. err (other 1) }

-- The count of the rows cannot be read, and the next event of the directory is an update.
persist_directory_once_example :
    ((persist_directory
        (with_sql (time_at 7) failing)
        (time_at 8)
        child_dir
        (unread_db, [])).1.0.rows
      ≡ (2, none) ∷ db.rows)
    × (persist_directory
          (with_sql (time_at 7) failing)
          (time_at 9)
          child_dir
          (persist_directory (with_sql (time_at 7) failing) (time_at 8) child_dir (unread_db, [])).1
        ≡ (
          err (expected_one_row 0),
          (persist_directory
              (with_sql (time_at 7) failing)
              (time_at 8)
              child_dir
              (unread_db, [])).1,
        ))
persist_directory_once_example =
    persist_directory_once failing (time_at 7) (time_at 8) (time_at 9) db.rows [] child_dir
      child_dir (unread (other 0)) tt refl refl refl refl
