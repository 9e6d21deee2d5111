-- ===== src/App/Events.antt =====
-- What the controller does with an event, over the table of tracked directories.
use fertilesoil.Base.{
  ◌≡◌, Bool, true, false, ◌&&◌, ◌||◌, none, some, List, [], ◌∷◌, ◌++◌, String, diverge,
  if◌then◌else◌, is_some, arith, Outcome, ok, err, err_with, panic, expected_one_row, wrap,
}
use fertilesoil.Api.{Time, is_deleted, create, delete, DirectoryEvent}
use fertilesoil.App.SqlStorage.{
  Rows, Db, find_row, is_directory_tracked, delete_directory, sql_storage,
}
use fertilesoil.App.Controller.{
  Controller, event_of, is_create, is_relevant_event, process_incoming_event, Signal, received,
  run_loop,
}
use fertilesoil.App.Tracking.{HasKeys, is_live_row, create_directory_lem, delete_directory_lem}

-- The application looks at the event: its directory is tracked, or it creates a directory whose
-- parent is tracked.
abbrev pub concerns : DirectoryEvent → Rows → Bool
concerns ev rows =
    is_some (find_row ev.directory.id rows)
    || (is_create ev.event_type
        && (elim ev.directory.parent [ none ↦ false | some p ↦ is_some (find_row p rows) ]))

-- The controller with the table as its storage, at the time `now`.
abbrev pub with_sql : Time → Controller Db → Controller Db
with_sql now c = record c { store = sql_storage now }

-- The error of a reconciler, as the caller sees it.
abbrev pub with_wrap : String → Outcome (Unit {0}) → Outcome (Unit {0})
with_wrap text (ok a) = ok a
with_wrap text (err e) = err (wrap text e)
with_wrap text (err_with a e) = err (wrap text e)
with_wrap text (panic p) = panic p
with_wrap text diverge = diverge

module _ (c : Controller Db) (now : Time) (db : Db) (up : db.faults ≡ [])
    (seen : List DirectoryEvent) where
  is_relevant_event_lem :
      (ev : DirectoryEvent)
      → is_relevant_event (with_sql now c) ev (db, seen) ≡ (ok (concerns ev db.rows), (db, seen))
  unfolding is_relevant_event is_directory_tracked
  is_relevant_event_lem ev = ground arith

  -- An event that does not concern the application changes nothing and reconciles nothing.
  pub process_other :
      (ev : DirectoryEvent)
      → concerns ev db.rows ≡ false
      → process_incoming_event (with_sql now c) now (some ev) (db, seen) ≡ (ok tt, (db, seen))
  unfolding process_incoming_event
  process_other ev off = ground (arith, is_relevant_event_lem ev)

  -- An event of a directory that is not deleted and not tracked, below a tracked parent: the
  -- directory is tracked from now on, and the reconciler has one more event, its creation.
  pub process_new :
      (ev : DirectoryEvent)
      → concerns ev db.rows ≡ true
      → is_deleted ev.directory ≡ false
      → find_row ev.directory.id db.rows ≡ none
      → process_incoming_event (with_sql now c) now (some ev) (db, seen) ≡ (
        with_wrap "error persisting directory" (c.reconcile (event_of create now ev.directory)),
        (
          record db { rows = (ev.directory.id, none) ∷ db.rows },
          seen ++ event_of create now ev.directory ∷ [],
        ),
      )
  unfolding process_incoming_event
  process_new ev on live new =
      ground (arith, is_relevant_event_lem ev, create_directory_lem db up ev.directory)

  -- An event of a directory that is not deleted and is tracked already, an update or a repeated
  -- creation: the insertion affects no row, so the event ends in an error, and changes nothing.
  pub process_tracked :
      (ev : DirectoryEvent)
      → is_deleted ev.directory ≡ false
      → is_some (find_row ev.directory.id db.rows) ≡ true
      → process_incoming_event (with_sql now c) now (some ev) (db, seen)
        ≡ (err (wrap "error persisting directory" (expected_one_row 0)), (db, seen))
  unfolding process_incoming_event
  process_tracked ev live old =
      ground (arith, is_relevant_event_lem ev, create_directory_lem db up ev.directory)

  -- On a database that answers, Run stops with an error at an event of a directory that is not deleted and
  -- is tracked already, an update or a repeated creation. The table and the reconciler are left as they were,
  -- and the signals that follow are not handled.
  pub run_loop_tracked :
      (ev : DirectoryEvent) (signals : List (Time × Signal))
      → is_deleted ev.directory ≡ false
      → is_some (find_row ev.directory.id db.rows) ≡ true
      → run_loop (with_sql now c) ((now, received (some ev)) ∷ signals) (db, seen)
        ≡ (err (wrap "error persisting directory" (expected_one_row 0)), (db, seen))
  unfolding run_loop
  run_loop_tracked ev signals live old = ground (arith, process_tracked ev live old)

  -- An event of a deleted directory that concerns the application leaves the table as
  -- DeleteDirectory does. If the row was there and not deleted, the reconciler has one more event,
  -- the deletion; if not, a repeated deletion among them, the event ends in an error, and nothing
  -- is reconciled.
  pub process_deleted :
      (ev : DirectoryEvent)
      → HasKeys db.rows
      → concerns ev db.rows ≡ true
      → is_deleted ev.directory ≡ true
      → process_incoming_event (with_sql now c) now (some ev) (db, seen) ≡ (
          if is_live_row ev.directory.id db.rows
          then (
            with_wrap "error persisting directory" (c.reconcile (event_of delete now ev.directory)),
            (
              (delete_directory now ev.directory.id db).1,
              seen ++ event_of delete now ev.directory ∷ [],
            ),
          )
          else (
            err (wrap "error persisting directory" (expected_one_row 0)),
            ((delete_directory now ev.directory.id db).1, seen),
          ))
  unfolding process_incoming_event
  process_deleted ev keys on gone =
      let (answer, rows) = delete_directory_lem db now ev.directory.id up keys in
      ground (arith, is_relevant_event_lem ev)
