-- ===== src/App/Runs.antt =====
-- A whole run of the controller over the table of tracked directories.
use fertilesoil.Base.{
  ℕ, Bool, true, false, Option, none, some, List, [], ◌∷◌, if◌then◌else◌, Outcome, ok, err,
  err_with, panic, diverge, Action, pure, lift, ◌>>=◌, ◌>>◌,
}
use fertilesoil.Base.Int.{ℤ}
use fertilesoil.Api.{DirectoryId, Time, DirectoryEvent}
use fertilesoil.App.Interfaces.{ReadOnlyClient}
use fertilesoil.App.SqlStorage.{Db, is_directory_tracked, is_directory_info_updated}
use fertilesoil.App.Controller.{
  Controller, World, with_context, on_store, persist_directory, is_create, is_relevant_event,
  process_incoming_event, persist_if_up_to_date, persist_all, initialize_directories, set_ticker,
  Signal, cancelled, tick, watch_error, received, run_loop, run, random_ticker_duration,
  start_ticker,
}
use fertilesoil.App.Events.{with_sql}
use fertilesoil.App.Once.{
  AllRead, Announced, Sound, Kept, lift_only-Kept, lift-Kept, bind-Kept, with_context-Kept,
  persist-Kept, tracked-Kept, updated-Kept,
}

-- A test chooses between two calls.
either-Kept :
    {A : Type 0} (b : Bool) (m n : Action (World Db) A)
    → Kept m
    → Kept n
    → Kept (if b then m else n)
either-Kept true m n first second = first
either-Kept false m n first second = second

parent-Kept :
    (parent : Option DirectoryId)
    → Kept (elim parent [
      | none ↦ pure false
      | some p ↦
          with_context "error checking if parent directory is tracked"
            (on_store (is_directory_tracked p))
    ])
parent-Kept none = lift_only-Kept _
parent-Kept (some p) = with_context-Kept _ _ (tracked-Kept p)

module _ (clock : Time) (c : Controller Db) where
  relevant-Kept : (ev : DirectoryEvent) → Kept (is_relevant_event (with_sql clock c) ev)
  unfolding is_relevant_event
  relevant-Kept ev =
      bind-Kept _
        (λ tracking. either-Kept tracking _ _ (lift_only-Kept _) (
          either-Kept (is_create ev.event_type) _ _ (parent-Kept ev.directory.parent)
            (lift_only-Kept _)))
        _ (with_context-Kept _ _ (tracked-Kept ev.directory.id))

  process-Kept :
      (now : Time) (ev : Option DirectoryEvent)
      → Kept (process_incoming_event (with_sql clock c) now ev)
  unfolding process_incoming_event
  process-Kept now none = lift_only-Kept _
  process-Kept now (some ev) =
      bind-Kept _
        (λ relevant.
          either-Kept relevant _ _ (with_context-Kept _ _ (persist-Kept clock now c ev.directory))
            (lift_only-Kept _))
        _ (with_context-Kept _ _ (relevant-Kept ev))

  refresh-Kept :
      (now : Time) (dir : DirectoryId) → Kept (persist_if_up_to_date (with_sql clock c) now dir)
  unfolding persist_if_up_to_date
  refresh-Kept now dir = with_client c.client
    where
      with_client :
          (known : Option (Time → ReadOnlyClient))
          → Kept (elim known [
            | none ↦ pure tt
            | some client ↦ do
              d ← lift ((client now).get_directory dir)
              up_to_date ← on_store (is_directory_info_updated d)
              if up_to_date then pure tt else persist_directory (with_sql clock c) now d
          ])
      with_client none = lift_only-Kept _
      with_client (some client) =
          lift-Kept _
            (λ d.
              bind-Kept _ (λ up. either-Kept up _ _ (lift_only-Kept _) (persist-Kept clock now c d))
                _ (updated-Kept d))
            ((client now).get_directory dir)

  refresh_all-Kept :
      (now : Time) (dirs : List DirectoryId) → Kept (persist_all (with_sql clock c) now dirs)
  unfolding persist_all
  refresh_all-Kept now [] = lift_only-Kept _
  refresh_all-Kept now (dir ∷ dirs) =
      bind-Kept _ (λ done. refresh_all-Kept now dirs) _ (refresh-Kept now dir)

  initialize-Kept : (now : Time) → Kept (initialize_directories (with_sql clock c) now)
  unfolding initialize_directories
  initialize-Kept now = with_client c.client
    where
      with_client :
          (known : Option (Time → ReadOnlyClient))
          → Kept (elim known [
            | none ↦ pure tt
            | some client ↦ do
              persist_if_up_to_date (with_sql clock c) now c.base_dir
              subdirs ← lift ((client now).get_children c.base_dir)
              persist_all (with_sql clock c) now subdirs
          ])
      with_client none = lift_only-Kept _
      with_client (some client) =
          bind-Kept _
            (λ done. lift-Kept _ (refresh_all-Kept now) ((client now).get_children c.base_dir)) _
            (refresh-Kept now c.base_dir)

  set_ticker-Kept : (draw : ℕ) → Kept (set_ticker (with_sql clock c) draw)
  set_ticker-Kept draw = record {
    keeps = λ w h.
        started (random_ticker_duration c.minimum_interval c.maximum_interval c.interval_unit draw)
          w h;
  }
    where
      started :
          (r : Outcome ℤ) (w : World Db)
          → Sound w
          → Sound
              (elim r as (λ x. Outcome (Unit {0}) × World Db) [
                | ok d ↦ (start_ticker d, w)
                | err e ↦ (err e, w)
                | err_with a e ↦ (err e, w)
                | panic p ↦ (panic p, w)
                | diverge ↦ (diverge, w)
              ]).1
      started (ok d) w h = h
      started (err e) w h = h
      started (err_with a e) w h = h
      started (panic p) w h = h
      started diverge w h = h

  run_loop-Kept : (signals : List (Time × Signal)) → Kept (run_loop (with_sql clock c) signals)
  unfolding run_loop
  run_loop-Kept [] = lift_only-Kept _
  run_loop-Kept ((now, cancelled e) ∷ signals) = lift_only-Kept _
  run_loop-Kept ((now, tick draw) ∷ signals) =
      bind-Kept _ (λ done. bind-Kept _ (λ done. run_loop-Kept signals) _ (set_ticker-Kept draw)) _
        (initialize-Kept now)
  run_loop-Kept ((now, watch_error none) ∷ signals) = lift_only-Kept _
  run_loop-Kept ((now, watch_error (some e)) ∷ signals) = lift_only-Kept _
  run_loop-Kept ((now, received ev) ∷ signals) =
      bind-Kept _ (λ done. run_loop-Kept signals) _ (process-Kept now ev)

  -- The table of tracked directories and the events handed to the reconciler stay in step through a whole
  -- run of the controller: for each id there has been one creation if the table has its row and none if
  -- not, and one deletion if its row is marked as deleted and none if not. This holds for any ticks, events
  -- and errors that arrive, whatever the client answers at each time and the reconciler to each event,
  -- whichever of the statements the database refuses, and however the run ends, when it holds at the start.
  -- The condition is that no statement runs whose answer cannot be read. The clock of the database stands
  -- still during the run.
  pub run-Announced :
      (start : Time) (draw : ℕ) (signals : List (Time × Signal)) (db : Db)
      (seen : List DirectoryEvent)
      → AllRead db.faults
      → Announced (db, seen)
      → Announced (run (with_sql clock c) start draw signals (db, seen)).1
  unfolding run
  run-Announced start draw signals db seen read h =
      ((bind-Kept _ (λ done. bind-Kept _ (λ done. run_loop-Kept signals) _ (initialize-Kept start))
          _ (set_ticker-Kept draw)).keeps
        (db, seen) (read, h)).1
