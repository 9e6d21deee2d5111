-- ===== src/Client/ReadOnly.antt =====
-- The HTTP client as the read-only client of the controller (client/v1/interface.go,
-- client/v1/cfg.go), over the server on the in-memory driver.
use fertilesoil.Base.{
  ◌≡◌, refl, ◌∙◌, ap, none, some, List, [], Outcome, ok, err, err_with, panic, diverge, arith,
}
use fertilesoil.Api.{DirectoryId, Directory, parse_directory_id}
use fertilesoil.Storage.Options.{Setting, build_options, apply_all}
use fertilesoil.Storage.DirMap.{directory, DirMap, lookup}
use fertilesoil.Storage.Interface.{Surroundings, memory_driver}
use fertilesoil.Storage.Memory.Read
use fertilesoil.Storage.Memory.Descendants
use fertilesoil.Http.Query.{client_query, storage_options_from_get_query}
use fertilesoil.Http.Pages.{client_query_lem}
use fertilesoil.Http.Handlers.{Request, Response, get_id, one_directory, serve}
use fertilesoil.Http.Handlers
use fertilesoil.App.Interfaces.{ReadOnlyClient}
use fertilesoil.Client.Calls.{Wire, HttpClient, DirectoryList}
use fertilesoil.Client.Calls
use fertilesoil.Client.Server.{Front, method_of, path_of, request_of}
use fertilesoil.Client.Served.{
  IsConnected, connected, url_of, matched_of, call_ok, settings_read, get_children_served,
}

abbrev pub directories_of : Outcome DirectoryList → Outcome (List DirectoryId)
directories_of (ok l) = ok l.directories
directories_of (err e) = err e
directories_of (err_with l e) = err_with l.directories e
directories_of (panic p) = panic p
directories_of diverge = diverge

-- The two calls of the controller, while the server has the state `s`.
abbrev pub read_only_at : {S Bytes : Type 0} → Wire Bytes → HttpClient S Bytes → S → ReadOnlyClient
read_only_at w h s = record {
  get_directory = λ id. (Calls.get_directory w h id [] s).0;
  get_children = λ id. directories_of (Calls.get_children w h id [] s).0;
}

-- A listing depends on its options only.
get_children_asked :
    (visit : DirMap → DirMap) (m : DirMap) (id : DirectoryId) (asked settings : List Setting)
    → build_options asked ≡ build_options settings
    → Descendants.get_children visit m id asked ≡ Descendants.get_children visit m id settings
unfolding Descendants.get_children
get_children_asked visit m id asked settings same = rw same refl

-- A live directory is found with any settings.
get_directory_live :
    (m : DirMap) (id : DirectoryId) (d : Directory) (asked : List Setting)
    → lookup id m ≡ some (directory d)
    → d.deleted_at ≡ none
    → Read.get_directory m id asked ≡ ok d
unfolding Read.get_directory
get_directory_live m id d asked found live = ground arith

-- The client over the server on the in-memory driver, while its map is `m`.
abbrev pub http_client :
    {Bytes : Type 0} → Wire Bytes → Front Bytes → Surroundings → DirMap → ReadOnlyClient
http_client w f e m = read_only_at w (connected w f (memory_driver e)) m

module _ {Bytes : Type 0} (w : Wire Bytes) (f : Front Bytes) (laws : IsConnected w f)
    (parsed_fetch : (d : Directory) → w.parse_fetch (f.render (one_directory d)) ≡ some d)
    (e : Surroundings) (m : DirMap) where
  get_directory_answer :
      (r : Request) (settings : List Setting) (id : DirectoryId) (d : Directory)
      → storage_options_from_get_query r.query ≡ ok settings
      → parse_directory_id f.uuid_parse r.id ≡ ok id
      → (memory_driver e).get_directory id settings m ≡ (ok d, m)
      → serve f.uuid_parse (memory_driver e) get_id r m
        ≡ (ok (record { status = 200; body = one_directory d }), m)
  unfolding Handlers.get_directory
  get_directory_answer r settings id d options parsed found = rw (options, parsed, found) refl

  -- GetDirectory of the client gives the live directory that the map holds.
  pub http_client-reads :
      (x : DirectoryId) (d : Directory)
      → lookup x m ≡ some (directory d)
      → d.deleted_at ≡ none
      → (http_client w f e m).get_directory x ≡ ok d
  unfolding Calls.get_directory build_options apply_all
  http_client-reads x d found live =
      let (asked, read, same) =
        settings_read (storage_options_from_get_query (client_query [])) (build_options [])
          (client_query_lem [] 0 0 refl refl (omega arith) (omega arith)) in
      let path = path_of get_id (w.uuid_text x) "" in
      let matched = matched_of get_id (w.uuid_text x) "" in
      let known : parse_directory_id f.uuid_parse (w.uuid_text x) ≡ ok x =
        rw (laws.parsed_id x, parse_directory_id) refl in
      ap (λ r. r.0)
        (call_ok w f (memory_driver e) "error getting directory" w.parse_fetch (method_of get_id)
          path (client_query []) none matched (record { status = 200; body = one_directory d }) d m
          m (laws.routed get_id (w.uuid_text x) "")
          (get_directory_answer
            (request_of f matched (url_of w f (memory_driver e) path (client_query [])) none) asked
            x d read known (ap (λ o. (o, m)) (get_directory_live m x d asked found live)))
          (parsed_fetch d))

  -- GetChildren of the client gives what the driver lists below a live directory.
  pub http_client-lists :
      (x : DirectoryId) (d : Directory) (ids : List DirectoryId)
      → lookup x m ≡ some (directory d)
      → d.deleted_at ≡ none
      → d.id ≡ x
      → Descendants.get_children e.visit m x [] ≡ ok ids
      → (http_client w f e m).get_children x ≡ ok ids
  unfolding build_options apply_all
  http_client-lists x d ids found live same_id listed =
      ap (λ r. directories_of r.0)
        (get_children_served w f (memory_driver e) [] 0 0 x d ids m m m laws refl refl (omega arith)
          (omega arith) (λ asked same. ap (λ o. (o, m)) (get_directory_live m x d asked found live))
          (λ asked same.
            ap (λ o. (o, m)) (rw same_id (get_children_asked e.visit m x asked [] same ∙ listed))))
