-- ===== src/Tests/System.antt =====
-- The theorems on the whole system, at a root that the application follows, a child that is made and
-- deleted, and another root.
use fertilesoil.Base.{
  ◌≡◌, refl, ◌<◌, length, false, Option, none, some, List, [], ◌∷◌, ◌++◌, ok, arith, Bool-cases,
  inl, inr, ◌==◌,
}
use std.Path.{fun_ext}
use fertilesoil.Base.Int.{pos, int_half}
use fertilesoil.Api.{DirectoryId, DirectoryEvent, create}
use fertilesoil.Storage.DirMap.{DirMap, directory, load_or_store}
use fertilesoil.Storage.Notifier.{create_directory, delete_directory, with_notifier, add_wrapper}
use fertilesoil.Storage.Memory.Write
use fertilesoil.Storage.Memory.Write.{insert_new}
use fertilesoil.App.SqlStorage.{Db, sql_storage}
use fertilesoil.App.Controller.{Controller, World, run_loop, process_incoming_event, event_of}
use fertilesoil.App.Events.{with_sql}
use fertilesoil.App.Tracking.{HasKeys}
use fertilesoil.Messaging.Nats.{Jetstream, NatsNotifier, publish}
use fertilesoil.System.Tracker.{view, play, process-play}
use fertilesoil.System.Service.{service}
use fertilesoil.System.Steps.{State, answered, Reach, start, later, creation, deletion}
use fertilesoil.System.Mirror.{Follows}
use fertilesoil.System.Within.{Mirrors}
use fertilesoil.System.Smooth.{signals}
use fertilesoil.System.Delivered.{catches_up}
use fertilesoil.Tests.{time_at, plain, root_dir, child_dir, around}

abbrev stream : Jetstream (DirMap × List DirectoryEvent) DirectoryEvent
stream = record {
  stream_info = λ name s. (ok (record { name = name; subjects = []; in_memory = false }), s);
  add_stream = λ config s. (ok config, s);
  publish = λ subject bytes s. (ok tt, (s.0, s.1 ++ bytes ∷ []));
  is_stream_not_found = λ e. false;
}

abbrev pub notifier : NatsNotifier (DirMap × List DirectoryEvent) DirectoryEvent
notifier = record { js = stream; subject_prefix = "p"; encode = λ ev. some ev }

abbrev pub controller : Controller Db
controller = record {
  client = none;
  base_dir = 1;
  store = sql_storage (time_at 7);
  reconcile = λ ev. ok tt;
  minimum_interval = pos 5;
  maximum_interval = pos 10;
  interval_unit = pos 60_000_000_000;
}

abbrev pub decode : DirectoryEvent → Option DirectoryEvent
decode ev = some ev

-- Directory 1 is the base directory, and is tracked.
abbrev first : State DirectoryEvent
first = record {
  map = (1, directory root_dir) ∷ [];
  wire = [];
  table = record { rows = (1, none) ∷ []; faults = [] };
  seen = [];
}

first-Follows : Follows decode false 1 first
first-Follows = record {
  tree = (refl, refl, λ p h. ground arith, tt);
  has_base = refl;
  keys = (refl, tt);
  up = refl;
  mirror =
      fun_ext
        (λ x. elim (Bool-cases (1 == x)) [ inl same ↦ ground arith | inr off ↦ ground arith ]);
  smooth = λ quiet. refl;
}

-- A child of it is made under the id 4, and then deleted.
abbrev second : State DirectoryEvent
second =
    answered first
      (create_directory (service notifier around) (plain 0 (some 1) 20) (first.map, first.wire))

abbrev third : State DirectoryEvent
third = answered second (delete_directory (service notifier around) 4 (second.map, second.wire))

second-Reach : Reach notifier decode controller false first second
second-Reach = later start (creation around (plain 0 (some 1) 20) refl refl (λ p h. ground arith))

second_small : length second.map < int_half
unfolding create_directory with_notifier add_wrapper publish insert_new load_or_store
    Write.create_directory
second_small = omega arith

third-Reach : Reach notifier decode controller false first third
third-Reach = later second-Reach (deletion around 4 (λ p. refl) second_small refl)

catches_up_example :
    (w : World Db) × (run_loop
        (with_sql (time_at 60) controller)
        (signals (time_at 60) decode third.wire)
        (third.table, third.seen)
      ≡ (ok false, w))
    × Mirrors 1 third.map w.0.rows
catches_up_example =
    catches_up notifier decode (λ subject bytes m wire. refl) (λ ev. (ev, refl, refl)) controller
      (λ ev. refl) 1 first third (time_at 60) first-Follows third-Reach

-- The creation of directory 2 below the base directory.
process-play_example :
    ((x : DirectoryId)
      → view
          (process_incoming_event
            (with_sql (time_at 60) controller)
            (time_at 60)
            (some (event_of create (time_at 50) child_dir))
            (first.table, [])).1.0.rows
          x
        ≡ play (event_of create (time_at 50) child_dir) (view first.table.rows) x)
    × HasKeys
        (process_incoming_event
          (with_sql (time_at 60) controller)
          (time_at 60)
          (some (event_of create (time_at 50) child_dir))
          (first.table, [])).1.0.rows
    × ((process_incoming_event
          (with_sql (time_at 60) controller)
          (time_at 60)
          (some (event_of create (time_at 50) child_dir))
          (first.table, [])).1.0.faults
        ≡ [])
process-play_example =
    process-play controller (time_at 60) first.table refl (refl, tt) []
      (event_of create (time_at 50) child_dir)
