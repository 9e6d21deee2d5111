-- ===== src/System/Delivered.antt =====
-- The system when the messages have been delivered.
use fertilesoil.Base.{◌≡◌, refl, ◌∙◌, false, Option, some, List, [], ◌∷◌, ◌++◌, ok, String}
use std.Path.{fun_ext⁻}
use fertilesoil.Api.{DirectoryId, Time, DirectoryEvent}
use fertilesoil.Storage.DirMap.{DirMap}
use fertilesoil.Messaging.Nats.{NatsNotifier}
use fertilesoil.App.Controller.{Controller, World, run_loop}
use fertilesoil.App.SqlStorage.{Db}
use fertilesoil.App.Events.{with_sql}
use fertilesoil.System.Steps.{State, Reach}
use fertilesoil.System.Within.{Mirrors, subtree-Mirrors}
use fertilesoil.System.Smooth.{signals, run_loop-smooth}
use fertilesoil.System.Mirror.{Follows}
use fertilesoil.System.Reached.{reach-Follows}

module _ {Bytes : Type 0} (n : NatsNotifier (DirMap × List Bytes) Bytes)
    (decode : Bytes → Option DirectoryEvent)
    (ordered : (subject : String) (bytes : Bytes) (m : DirMap) (wire : List Bytes)
      → n.js.publish subject bytes (m, wire) ≡ (ok tt, (m, wire ++ bytes ∷ [])))
    (faithful : (ev : DirectoryEvent)
      → (bytes : Bytes) × (n.encode ev ≡ some bytes) × (decode bytes ≡ some ev))
    (c : Controller Db) (accepts : (ev : DirectoryEvent) → c.reconcile ev ≡ ok tt)
    (base : DirectoryId) where
  -- When no update has reached the service and the reconciler takes every event, the loop of Run handles all the
  -- messages that are left without an error and waits for more, and then the table mirrors the subtree below the
  -- base directory, deletions included. The other conditions are those of the requests, of the stream and of the
  -- codec: the application followed the subtree at the start; the stream takes every message and keeps their order,
  -- and each decodes to the event that was encoded; new ids are not in use, a new directory is not deleted and its
  -- parent is in the map, and a deletion does not happen at the zero time, on a map of fewer than 2^63 entries.
  pub catches_up :
      (s t : State Bytes) (now : Time)
      → Follows decode false base s
      → Reach n decode c false s t
      → (w : World Db) × (run_loop (with_sql now c) (signals now decode t.wire) (t.table, t.seen)
          ≡ (ok false, w))
        × Mirrors base t.map w.0.rows
  catches_up s t now f r =
      let g = reach-Follows n decode ordered faithful c false base s t f r in
      let (w, looped, shown) =
        run_loop-smooth c now accepts decode t.wire t.table t.seen g.up g.keys (g.smooth refl) in
      (w, looped, subtree-Mirrors base t.map w.0.rows g.tree (λ x. fun_ext⁻ (shown ∙ g.mirror) x))
