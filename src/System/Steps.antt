-- ===== src/System/Steps.antt =====
-- The service and an application that follows it, as one system: what it may do in any order. A
-- request reaches the service, or the oldest message that the application has not handled reaches
-- the controller (app/v1/controllerimpl.go).
use fertilesoil.Base.{
  ◌<◌, ◌≡◌, Bool, true, false, Option, none, some, List, ◌∷◌, Outcome, length, SameItems,
}
use fertilesoil.Base.Int.{int_half}
use fertilesoil.Api.{DirectoryId, Time, Directory, is_zero, DirectoryEvent}
use fertilesoil.Storage.DirMap.{directory, DirMap, lookup}
use fertilesoil.Storage.Interface.{Surroundings}
use fertilesoil.Storage.Memory.Tree.{HasParent}
use fertilesoil.Storage.Notifier.{create_directory, create_root, update_directory, delete_directory}
use fertilesoil.Messaging.Nats.{NatsNotifier}
use fertilesoil.App.SqlStorage.{Db}
use fertilesoil.App.Controller.{Controller, World, process_incoming_event}
use fertilesoil.App.Events.{with_sql}
use fertilesoil.System.Service.{service}

pub record State (Bytes : Type 0) : Type 0 where
  pub map : DirMap
  pub wire : List Bytes
  pub table : Db
  pub seen : List DirectoryEvent

module _ {Bytes : Type 0} where
  -- The state when the service has answered a request.
  abbrev pub answered : {A : Type 0} → State Bytes → Outcome A × (DirMap × List Bytes) → State Bytes
  answered s (r, (map, wire)) = record s { map = map; wire = wire }

  -- The state when the controller has handled a message, and `rest` is still to come.
  abbrev pub handled : State Bytes → List Bytes → Outcome (Unit {0}) × World Db → State Bytes
  handled s rest (r, (table, seen)) = record s { wire = rest; table = table; seen = seen }

  module _ (n : NatsNotifier (DirMap × List Bytes) Bytes) (decode : Bytes → Option DirectoryEvent)
      (c : Controller Db) (changes : Bool) where
    -- Updates happen only when `changes` says so. A new id is not in use, and a new directory is not deleted, and its parent is in the map. An
    -- update keeps the parent and the deletion time. A deletion does not happen at the zero time,
    -- and its scan of the map meets each entry once.
    pub data Step (s : State Bytes) : State Bytes → Type 0 where
      creation :
          (e : Surroundings) (d : Directory)
          → lookup e.new_id s.map ≡ none
          → d.deleted_at ≡ none
          → HasParent d s.map
          → Step s (answered s (create_directory (service n e) d (s.map, s.wire)))
      root_creation :
          (e : Surroundings) (d : Directory)
          → lookup e.new_id s.map ≡ none
          → d.deleted_at ≡ none
          → Step s (answered s (create_root (service n e) d (s.map, s.wire)))
      change :
          (e : Surroundings) (d old : Directory)
          → changes ≡ true
          → lookup d.id s.map ≡ some (directory old)
          → d.parent ≡ old.parent
          → d.deleted_at ≡ old.deleted_at
          → Step s (answered s (update_directory (service n e) d (s.map, s.wire)))
      deletion :
          (e : Surroundings) (id : DirectoryId)
          → SameItems (e.visit s.map) s.map
          → length s.map < int_half
          → is_zero e.now ≡ false
          → Step s (answered s (delete_directory (service n e) id (s.map, s.wire)))
      delivery :
          (now : Time) (bytes : Bytes) (rest : List Bytes)
          → s.wire ≡ bytes ∷ rest
          → Step s (
              handled s rest
                (process_incoming_event (with_sql now c) now (decode bytes) (s.table, s.seen)))

    -- Any number of steps.
    pub data Reach (s : State Bytes) : State Bytes → Type 0 where
      start : Reach s s
      later : {t u : State Bytes} → Reach s t → Step t u → Reach s u
