-- ===== src/System/Deployed.antt =====
-- The whole deployment: the controller with the HTTP client, over the server on the in-memory driver,
-- and the messages of the service.
use fertilesoil.Base.{
  ℕ, ◌≤◌, ◌<◌, ◌≡◌, ◌∙◌, sym, true, false, Option, some, is_some, List, [], ◌∷◌, ◌++◌, ==_self,
  arith, Option-cases, inl, inr, count, length, ok, SameItems, String,
}
use fertilesoil.Base.Int.{int_half}
use fertilesoil.Api.{DirectoryId, Directory, Time, DirectoryEvent}
use fertilesoil.Storage.Options.{build_options}
use fertilesoil.Storage.DirMap.{directory, DirMap, lookup}
use fertilesoil.Storage.Interface.{Surroundings}
use fertilesoil.Storage.Memory.Tree.{IsTree, lookup-IsTree, directories}
use fertilesoil.Storage.Memory.Descendants.{get_children}
use fertilesoil.Storage.Memory.Children.{is_listed_child, get_children_pages}
use fertilesoil.Storage.Memory.Deleted.{default_fits}
use fertilesoil.Http.Handlers.{one_directory}
use fertilesoil.Client.Calls.{Wire}
use fertilesoil.Client.Server.{Front}
use fertilesoil.Client.Served.{IsConnected}
use fertilesoil.Client.ReadOnly.{http_client, http_client-reads, http_client-lists}
use fertilesoil.Messaging.Nats.{NatsNotifier}
use fertilesoil.App.SqlStorage.{Db}
use fertilesoil.App.Controller.{Controller, World, initialize_directories, set_ticker, run}
use fertilesoil.App.Events.{with_sql}
use fertilesoil.App.Once.{Announced}
use fertilesoil.System.Subtree.{in_subtree}
use fertilesoil.System.Seeded.{LiveBelow}
use fertilesoil.System.Steps.{State, Reach}
use fertilesoil.System.Within.{Mirrors, in_subtree-parent}
use fertilesoil.System.Smooth.{signals}
use fertilesoil.System.Started.{empty_db, run-Mirrors}

module _ {Body : Type 0} (w : Wire Body) (f : Front Body) (laws : IsConnected w f)
    (parsed_fetch : (d : Directory) → w.parse_fetch (f.render (one_directory d)) ≡ some d)
    (e : Surroundings) (m : DirMap) (visits : SameItems (e.visit m) m) (tree : IsTree m)
    (small : length m < int_half) where
  -- The client lists below a live directory what the driver lists.
  client_lists :
      (base : DirectoryId)
      → is_some (lookup base m) ≡ true
      → LiveBelow base m
      → (http_client w f e m).get_children base ≡ get_children e.visit m base []
  client_lists base there live = elim (Option-cases (lookup base m)) [
    | inl missing ↦ absurd (ground arith)
    | inr (v, found) ↦
        let (d, is_d, id_d) = lookup-IsTree m base tree found in
        let entry : lookup base m ≡ some (directory d) = ground arith in
        let within : in_subtree base m base ≡ true =
          ground (arith, in_subtree-parent base m base d tree entry, ==_self base) in
        let (listing, same, sorted, listed) =
          get_children_pages e.visit m visits tree base [] small default_fits.0 default_fits.1 in
        http_client-lists w f laws parsed_fetch e m base d _ entry (live base d within entry) id_d
          listed
        ∙ sym listed
  ]

  module _ (c : Controller Db) (now : Time) (known : c.client ≡ some (λ at. http_client w f e m))
      (accepts : (ev : DirectoryEvent) → c.reconcile ev ≡ ok tt)
      (there : is_some (lookup c.base_dir m) ≡ true) (live : LiveBelow c.base_dir m)
      (few : count (is_listed_child m (build_options []) c.base_dir) (directories m) ≤ 10)
      {Bytes : Type 0} (n : NatsNotifier (DirMap × List Bytes) Bytes)
      (decode : Bytes → Option DirectoryEvent)
      (ordered : (subject : String) (bytes : Bytes) (m : DirMap) (wire : List Bytes)
        → n.js.publish subject bytes (m, wire) ≡ (ok tt, (m, wire ++ bytes ∷ [])))
      (faithful : (ev : DirectoryEvent)
        → (bytes : Bytes) × (n.encode ev ≡ some bytes) × (decode bytes ≡ some ev)) where
    -- A run of the controller from an empty table, with the HTTP client over the server on the in-memory driver, ends
    -- up waiting for more messages, with a table that mirrors the subtree below the base directory of the map as it is
    -- after any creations and deletions that the service has had since, all of whose messages the run receives; and
    -- the reconciler has been handed one creation for each id of the table and one deletion for each row that is
    -- marked as deleted, and none for any other id. At the start the map is a tree of fewer than 2^63 entries, which a
    -- Range visits each once, it holds the base directory, every directory of the subtree is live, and the base
    -- directory has at most ten descendants; the client is used at the start only. The codecs of client and server
    -- agree, and the router finds the handlers. The draw for the ticker is good, and the reconciler takes every event.
    -- The stream takes every message and keeps their order, and each decodes to the event that was encoded; new ids
    -- are not in use, a new directory is not deleted and its parent is in the map, and a deletion does not happen at
    -- the zero time, on a map of fewer than 2^63 entries.
    pub run_over_http-Mirrors :
        (draw : ℕ) (after : World Db) (t : State Bytes)
        → set_ticker (with_sql now c) draw (empty_db, []) ≡ (ok tt, (empty_db, []))
        → initialize_directories (with_sql now c) now (empty_db, []) ≡ (ok tt, after)
        → Reach n decode c false (record { map = m; wire = []; table = after.0; seen = after.1 }) t
        → t.table ≡ after.0
        → t.seen ≡ after.1
        → (world : World Db) × (run
              (with_sql now c)
              now
              draw
              (signals now decode t.wire)
              (empty_db, [])
            ≡ (ok false, world))
          × Mirrors c.base_dir t.map world.0.rows
          × Announced world
    run_over_http-Mirrors =
        run-Mirrors c (λ at. http_client w f e m) now known accepts e.visit m visits tree small
          there live few (http_client-reads w f laws parsed_fetch e m)
          (client_lists c.base_dir there live) n decode ordered faithful
