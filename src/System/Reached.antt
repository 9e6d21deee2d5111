-- ===== src/System/Reached.antt =====
-- The table that follows through all steps of the system.
use fertilesoil.Base.{◌≡◌, refl, Bool, Option, some, List, [], ◌∷◌, ◌++◌, ok, String}
use fertilesoil.Api.{DirectoryId, DirectoryEvent}
use fertilesoil.Storage.DirMap.{DirMap}
use fertilesoil.Messaging.Nats.{NatsNotifier}
use fertilesoil.App.SqlStorage.{Db}
use fertilesoil.App.Controller.{Controller}
use fertilesoil.System.Steps.{
  State, Step, creation, root_creation, change, deletion, delivery, Reach, start, later,
}
use fertilesoil.System.Mirror.{Follows}
use fertilesoil.System.Requests.{follows-creation, follows-root_creation, follows-change}
use fertilesoil.System.Deletions.{follows-deletion}
use fertilesoil.System.Deliveries.{handled_as}

module _ {Bytes : Type 0} (n : NatsNotifier (DirMap × List Bytes) Bytes)
    (decode : Bytes → Option DirectoryEvent)
    (ordered : (subject : String) (bytes : Bytes) (m : DirMap) (wire : List Bytes)
      → n.js.publish subject bytes (m, wire) ≡ (ok tt, (m, wire ++ bytes ∷ [])))
    (faithful : (ev : DirectoryEvent)
      → (bytes : Bytes) × (n.encode ev ≡ some bytes) × (decode bytes ≡ some ev))
    (c : Controller Db) (changes : Bool) (base : DirectoryId) where
  -- Every step keeps it.
  follows-step :
      (s t : State Bytes)
      → Follows decode changes base s
      → Step n decode c changes s t
      → Follows decode changes base t
  follows-step s t f (creation e d fresh live parent) =
      follows-creation n decode ordered faithful changes base s f e d fresh live parent
  follows-step s t f (root_creation e d fresh live) =
      follows-root_creation n decode ordered faithful changes base s f e d fresh live
  follows-step s t f (change e d old changing found same kept) =
      follows-change n decode ordered faithful changes base s f e d old changing found same kept
  follows-step s t f (deletion e id visits small past) =
      follows-deletion n decode ordered faithful changes base s f e id visits small past
  follows-step s t f (delivery now bytes rest head) =
      handled_as decode changes c base s rest now bytes f head (decode bytes) refl

  -- The application follows the subtree below the base directory through any steps of the system: requests that
  -- create, change and delete directories, and deliveries, in any order. When it does so at the start, it does so
  -- after them: the map is a tree with the base directory, no id stands twice in the table, and what the table says
  -- of each id, once the messages that are still to come are played, is what the subtree says: whether the id is in
  -- it, and whether it is deleted. The stream takes every message and keeps their order, and each message decodes
  -- to the event that was encoded. New ids are not in use, an update keeps the parent and the deletion time, no
  -- deletion happens at the zero time, and the map has fewer than 2^63 entries.
  pub reach-Follows :
      (s t : State Bytes)
      → Follows decode changes base s
      → Reach n decode c changes s t
      → Follows decode changes base t
  reach-Follows s t f start = f
  reach-Follows s t f (later {t = u} r st) = follows-step u t (reach-Follows s u f r) st
