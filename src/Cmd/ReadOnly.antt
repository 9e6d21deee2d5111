-- ===== src/Cmd/ReadOnly.antt =====
-- A server that serve has started in read-only mode.
use fertilesoil.Base.{
  ◌≡◌, refl, ap, sym, ◌∙◌, Bool, true, false, Option, none, some, [], ◌∷◌, String, Outcome, Error,
  Action, pure, raise, bind_inv, ok, ◌>>◌, arith, Bool-cases, inl, inr,
}
use fertilesoil.Base.Results.{read_only}
use fertilesoil.Api.{DirectoryId, Directory, Time}
use fertilesoil.Storage.Interface.{DirectoryAdmin, beside}
use fertilesoil.Storage.Notifier.{
  Wrapper, Notifier, with_notifier, add_wrapper, notifying, create_directory, create_root,
  update_directory,
}
use fertilesoil.Storage.Crdb.Table.{Db}
use fertilesoil.Storage.Crdb.Driver
use fertilesoil.Storage.Crdb.Driver.{Surroundings, Driver, crdb_driver}
use fertilesoil.Storage.Crdb.Served.{crdb_driver-KeepsReads}
use fertilesoil.Http.Handlers
use fertilesoil.Http.Handlers.{
  Request, Response, Route, get_roots, post_roots, get_id, post_id, patch_id, delete_id,
  get_children, get_parents, get_parents_until, serve, list_roots, create_root_directory,
  get_directory, list_children, list_parents, list_parents_until,
}
use fertilesoil.Http.Kept.{then_kept}
use fertilesoil.Http.Keeps.{Keeps, KeepsReads, serve-Keeps}
use fertilesoil.Http.Server.{Server, new_server}
use fertilesoil.Http.Engine.{
  Endpoint, livez, readyz, api, api_v1, directories, no_route, response, auth_required, new_handler,
}
use fertilesoil.Messaging.Nats.{Jetstream, NatsNotifier, nats_notifier}
use fertilesoil.Cmd.Settings.{Settings, AuthConfig, build_auth_config, driver_of}
use fertilesoil.Cmd.Serve.{Answers, init_nats, notifier_of, connections, server_run, server_options}

-- What keeps a property of the first part of the state.
beside-KeepsReads :
    {M N : Type 0} (P : M × N → Type 0) (t : DirectoryAdmin M)
    → ((x : N) → KeepsReads (λ m. P (m, x)) t)
    → KeepsReads P (beside t)
beside-KeepsReads P t h = record {
  directory_kept = λ id settings s k. (h s.1).directory_kept id settings s.0 k;
  parents_kept = λ id settings s k. (h s.1).parents_kept id settings s.0 k;
  until_kept = λ id until settings s k. (h s.1).until_kept id until settings s.0 k;
  children_kept = λ id settings s k. (h s.1).children_kept id settings s.0 k;
  roots_kept = λ settings s k. (h s.1).roots_kept settings s.0 k;
}

driver_of-read_only : (v : Settings) → v.read_only ≡ true → (driver_of v).read_only ≡ true
driver_of-read_only v only = elim (Bool-cases v.fast_reads) [
  | inl fast ↦ ground arith
  | inr slow ↦ ground arith
]

abbrev pub is_deleting : Route → Bool
is_deleting delete_id = true
is_deleting _ = false

abbrev pub is_deletion : Endpoint → Bool
is_deletion (directories route) = is_deleting route
is_deletion _ = false

auth_same :
    {S : Type 0} (answer : Option Response) (h : Action S Response) (s : S)
    → (h s).1 ≡ s
    → (auth_required answer h s).1 ≡ s
auth_same (some answer) h s same = refl
auth_same none h s same =
    then_kept (λ after. after ≡ s) (h s).0 (h s).1 (λ answer. pure (response answer)) same
      (λ answer. same)

module _ {N : Type 0} (t : Driver) (only : t.read_only ≡ true) (e : Surroundings)
    (n : Notifier (Db × N)) (w : Wrapper (Db × N)) where
  abbrev wired : DirectoryAdmin (Db × N)
  wired = notifying (with_notifier (beside (crdb_driver t e)) n (w ∷ []))

  creation_same : (d : Directory) (s : Db × N) → (wired.create_directory d s).1 ≡ s
  unfolding create_directory with_notifier add_wrapper Driver.create_directory
  creation_same d s = ground (arith, only)

  root_same : (d : Directory) (s : Db × N) → (wired.create_root d s).1 ≡ s
  unfolding create_root with_notifier add_wrapper Driver.create_root
  root_same d s = ground (arith, only)

  update_same : (d : Directory) (s : Db × N) → (wired.update_directory d s).1 ≡ s
  unfolding update_directory with_notifier add_wrapper Driver.update_directory
  update_same d s = ground (arith, only)

  -- The same server without its call of deletions.
  abbrev undeleting : DirectoryAdmin (Db × N)
  undeleting = record wired { delete_directory = λ id. raise read_only }

  undeleting-Keeps : (P : Db × N → Type 0) → Keeps P undeleting
  unfolding with_notifier add_wrapper
  undeleting-Keeps P = record {
    reads =
        let base =
          beside-KeepsReads P (crdb_driver t e)
            (λ x. crdb_driver-KeepsReads (λ db. P (db, x)) t e) in
        record {
          directory_kept = base.directory_kept;
          parents_kept = base.parents_kept;
          until_kept = base.until_kept;
          children_kept = base.children_kept;
          roots_kept = base.roots_kept;
        };
    creation_kept = λ d s h. rw (creation_same d s) h;
    update_kept = λ d s h. rw (update_same d s) h;
    deletion_kept = λ id s h. h;
    root_kept = λ d s h. rw (root_same d s) h;
  }

  -- A request to another route does not meet the call of deletions.
  serve-undeleting :
      (uuid_parse : String → Option DirectoryId) (route : Route) (r : Request) (s : Db × N)
      → is_deleting route ≡ false
      → serve uuid_parse wired route r s ≡ serve uuid_parse undeleting route r s
  unfolding list_roots create_root_directory get_directory Handlers.create_directory
      Handlers.update_directory list_children list_parents list_parents_until
  serve-undeleting uuid_parse get_roots r s other = refl
  serve-undeleting uuid_parse post_roots r s other = refl
  serve-undeleting uuid_parse get_id r s other = refl
  serve-undeleting uuid_parse post_id r s other = refl
  serve-undeleting uuid_parse patch_id r s other = refl
  serve-undeleting uuid_parse delete_id r s other = absurd (cc)
  serve-undeleting uuid_parse get_children r s other = refl
  serve-undeleting uuid_parse get_parents r s other = refl
  serve-undeleting uuid_parse get_parents_until r s other = refl

  serve_same :
      (uuid_parse : String → Option DirectoryId) (route : Route) (r : Request) (s : Db × N)
      → is_deleting route ≡ false
      → (serve uuid_parse wired route r s).1 ≡ s
  serve_same uuid_parse route r s other =
      ap (λ o. o.1) (serve-undeleting uuid_parse route r s other)
      ∙ serve-Keeps (λ after. after ≡ s) uuid_parse undeleting
          (undeleting-Keeps (λ after. after ≡ s)) r route s refl

  handler_same :
      (auth : Request → Option Response) (uuid_parse : String → Option DirectoryId)
      (ping : Option Error) (server : Server (Db × N)) (endpoint : Endpoint) (r : Request)
      (s : Db × N)
      → server.store ≡ with_notifier (beside (crdb_driver t e)) n (w ∷ [])
      → is_deletion endpoint ≡ false
      → (new_handler auth uuid_parse ping server endpoint r s).1 ≡ s
  unfolding new_handler
  handler_same auth uuid_parse ping server livez r s store other = refl
  handler_same auth uuid_parse ping server readyz r s store other = refl
  handler_same auth uuid_parse ping server api r s store other = refl
  handler_same auth uuid_parse ping server api_v1 r s store other = refl
  handler_same auth uuid_parse ping server no_route r s store other = refl
  handler_same auth uuid_parse ping server (directories route) r s store other =
      auth_same (auth r) (serve uuid_parse (notifying server.store) route r) s (
        ap (λ store. (serve uuid_parse (notifying store) route r s).1) store
        ∙ serve_same uuid_parse route r s other)

-- The server of an outcome, and another one when there is none.
abbrev server_or :
    {N : Type 0} → Server (Db × N) → Outcome (Server (Db × N) × AuthConfig) → Server (Db × N)
server_or other (ok (server, config)) = server
server_or other _ = other

-- What serve returns is the server that NewServer makes of its settings.
server_run_lem :
    {N Bytes : Type 0} (foreign : Answers N Bytes) (retrier : Wrapper (Db × N)) (e : Surroundings)
    (now : Time) (v : Settings) (s s' : Db × N) (server : Server (Db × N)) (config : AuthConfig)
    → server_run foreign retrier e now v s ≡ (ok (server, config), s')
    → (n : NatsNotifier (Db × N) Bytes) × (server
        ≡ new_server true retrier (server_options v n e now))
unfolding server_run
server_run_lem {N = N} {Bytes = Bytes} foreign retrier e now v s s' server config started =
    let start : Jetstream (Db × N) Bytes → Action (Db × N) (Server (Db × N) × AuthConfig) = λ js.
      pure (
        new_server true retrier (server_options v (notifier_of foreign v js) e now),
        build_auth_config v,
      ) in
    let (js, h) =
      bind_inv (λ js. init_nats v (notifier_of foreign v js) >> start js) (connections foreign v) s
        s' (server, config) started in
    let (done, k) =
      bind_inv (λ done. start js) (init_nats v (notifier_of foreign v js))
        (connections foreign v s).1 s' (server, config) h in
    (notifier_of foreign v js, sym (ap (λ r. server_or server r.0) k))

-- A server that serve has started with the setting of read-only mode changes nothing in the database and publishes
-- nothing, for any request but a deletion: whatever the other settings, the middleware of authentication, the route,
-- the body, the retry wrapper and the NATS server are, and also on a database that fails.
pub server_run_read_only :
    {N Bytes : Type 0} (foreign : Answers N Bytes) (retrier : Wrapper (Db × N)) (e : Surroundings)
    (now : Time) (v : Settings) (s s' : Db × N) (server : Server (Db × N)) (config : AuthConfig)
    (auth : Request → Option Response) (uuid_parse : String → Option DirectoryId)
    (ping : Option Error) (endpoint : Endpoint) (r : Request) (later : Db × N)
    → v.read_only ≡ true
    → server_run foreign retrier e now v s ≡ (ok (server, config), s')
    → is_deletion endpoint ≡ false
    → (new_handler auth uuid_parse ping server endpoint r later).1 ≡ later
unfolding new_server
server_run_read_only foreign retrier e now v s s' server config auth uuid_parse ping endpoint r
      later only started other =
    let (n, made) = server_run_lem foreign retrier e now v s s' server config started in
    handler_same (driver_of v) (driver_of-read_only v only) e (nats_notifier n now) retrier auth
      uuid_parse ping server endpoint r later (ap (λ server. server.store) made) other
