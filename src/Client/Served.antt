-- ===== src/Client/Served.antt =====
-- The client, connected to the server over a storage driver.
use fertilesoil.Base.{
  ℕ, ◌<◌, ◌≡◌, refl, ◌∙◌, Option, none, some, List, [], length, String, Outcome, ok, err, err_with,
  panic, diverge, arith, ==_self,
}
use fertilesoil.Base.Results.{◌>>=◌}
use fertilesoil.Base.Int.{pos, int_half}
use fertilesoil.Api.{DirectoryId, Directory, parse_directory_id}
use fertilesoil.Storage.Options.{Setting, Options, build_options}
use fertilesoil.Storage.Interface.{DirectoryAdmin}
use fertilesoil.Http.Strconv.{Text}
use fertilesoil.Http.Query.{Query, no_query, client_query, storage_options_from_get_query}
use fertilesoil.Http.Link.{Origin, Pagination, pagination_response}
use fertilesoil.Http.Pages.{client_query_lem}
use fertilesoil.Http.Handlers.{
  CreateDirectoryRequest, Request, Response, Route, get_roots, post_roots, get_parents_until,
  get_children, post_id, serve, list_children, create_directory, one_directory, listing, requested,
}
use fertilesoil.Client.Calls.{
  Method, Url, DirectoryList, Wire, HttpResponse, Transport, HttpClient, default_url,
  new_full_http_client, override, merge_query, do_raw, call, status_error,
}
use fertilesoil.Client.Calls
use fertilesoil.Client.Server.{Front, Matched, method_of, path_of, served, request_of, answer}

override-none : (x : Option Text) → override none x ≡ x
override-none none = refl
override-none (some v) = refl

merge_no_query : (q : Query) → merge_query no_query q ≡ q
merge_no_query q =
    rw (override-none q.with_deleted_value, override-none q.page_value, override-none q.limit_value)
      refl

pub settings_read :
    (r : Outcome (List Setting)) (o : Options)
    → (r >>= λ settings. ok (build_options settings)) ≡ ok o
    → (settings : List Setting) × (r ≡ ok settings) × (build_options settings ≡ o)
settings_read (ok settings) o h = (settings, refl, ground arith)
settings_read (err e) o h = absurd (ground arith)
settings_read (err_with a e) o h = absurd (ground arith)
settings_read (panic p) o h = absurd (ground arith)
settings_read diverge o h = absurd (ground arith)

pagination_response_ext :
    (r : Origin) (n : ℕ) (s s' : List Setting)
    → build_options s ≡ build_options s'
    → pagination_response r n s ≡ pagination_response r n s'
unfolding pagination_response
pagination_response_ext r n s s' e = rw e refl

-- What c.Param gives in the handler of a route: an empty text for a parameter that is not in its path.
abbrev pub matched_of : Route → String → String → Matched
matched_of r id until = record {
  route = r;
  id = elim r [ get_roots ↦ "" | post_roots ↦ "" | _ ↦ id ];
  until = elim r [ get_parents_until ↦ until | _ ↦ "" ];
}

-- The codec of the client and that of the server agree, and gin finds each registered handler.
pub record IsConnected {Bytes : Type 0} (w : Wire Bytes) (f : Front Bytes) : Type 0 where
  pub routed :
      (r : Route) (id until : String)
      → f.find_route (method_of r) (path_of r id until) ≡ some (matched_of r id until)
  pub parsed_id : (id : DirectoryId) → f.uuid_parse (w.uuid_text id) ≡ some id
  pub parsed_list :
      (ids : List DirectoryId) (p : Pagination)
      → w.parse_list (f.render (listing ids p))
        ≡ some (record { directories = ids; pagination = p })

module _ {S Bytes : Type 0} (w : Wire Bytes) (f : Front Bytes) (t : DirectoryAdmin S) where
  -- The client of the default configuration, with the server at the other end.
  abbrev pub connected : HttpClient S Bytes
  connected = new_full_http_client (served f t) none

  abbrev pub url_of : List String → Query → Url
  url_of path query = record {
    scheme = "http";
    host = "localhost:8080";
    segments = path;
    query = query;
  }

  pub do_raw_served :
      (method : Method) (path : List String) (query : Query) (body : Option Bytes) (found : Matched)
      (r : Response) (s s' : S)
      → f.find_route method path ≡ some found
      → serve f.uuid_parse t found.route (request_of f found (url_of path query) body) s
        ≡ (ok r, s')
      → do_raw w connected method path query body s ≡ (ok (answer f t r), s')
  unfolding do_raw new_full_http_client
  do_raw_served method path query body found r s s' at_route answered =
      rw (merge_no_query query) (rw at_route (ground (arith, answered)))

  pub call_ok :
      {A : Type 0} (text : String) (parse : Bytes → Option A) (method : Method) (path : List String)
      (query : Query) (body : Option Bytes) (found : Matched) (r : Response) (a : A) (s s' : S)
      → f.find_route method path ≡ some found
      → serve f.uuid_parse t found.route (request_of f found (url_of path query) body) s
        ≡ (ok r, s')
      → parse (f.render r.body) ≡ some a
      → call w connected text r.status parse method path query body s ≡ (ok a, s')
  call_ok text parse method path query body found r a s s' at_route answered understood =
      rw (do_raw_served method path query body found r s s' at_route answered)
        (rw (==_self r.status) (rw understood refl))

  -- The handler of a listing of children, when the driver answers.
  list_children_answer :
      (r : Request) (settings : List Setting) (id : DirectoryId) (d : Directory)
      (ids : List DirectoryId) (s s' s'' : S)
      → storage_options_from_get_query r.query ≡ ok settings
      → parse_directory_id f.uuid_parse r.id ≡ ok id
      → t.get_directory id settings s ≡ (ok d, s')
      → t.get_children d.id settings s' ≡ (ok ids, s'')
      → list_children f.uuid_parse t r s ≡ (
        ok (record {
          status = 200;
          body = listing ids (pagination_response r.origin (length ids) settings);
        }),
        s'',
      )
  unfolding list_children
  list_children_answer r settings id d ids s s' s'' options parsed found children =
      rw (options, parsed, found, children) refl

  -- What the server reads of the client's request for children.
  abbrev pub children_origin : DirectoryId → List Setting → Origin
  children_origin id settings =
      f.origin_of (url_of (path_of get_children (w.uuid_text id) "") (client_query settings))

  -- With codecs that agree and a router that finds the handlers, GetChildren of the client over the
  -- server gives what the driver gives: when the driver, asked with any settings that mean the options of the
  -- client, finds the directory and answers its children, the list holds these ids and the pagination of
  -- these options, and the state is the one that the driver leaves. Page and size are natural numbers
  -- below 2 ^ 63.
  pub get_children_served :
      (settings : List Setting) (page limit : ℕ) (id : DirectoryId) (d : Directory)
      (ids : List DirectoryId) (s s' s'' : S)
      → IsConnected w f
      → (build_options settings).page ≡ pos page
      → (build_options settings).page_size ≡ pos limit
      → page < int_half
      → limit < int_half
      → ((asked : List Setting)
          → build_options asked ≡ build_options settings
          → t.get_directory id asked s ≡ (ok d, s'))
      → ((asked : List Setting)
          → build_options asked ≡ build_options settings
          → t.get_children d.id asked s' ≡ (ok ids, s''))
      → Calls.get_children w connected id settings s ≡ (
        ok (record {
          directories = ids;
          pagination = pagination_response (children_origin id settings) (length ids) settings;
        }),
        s'',
      )
  unfolding Calls.get_children
  get_children_served settings page limit id d ids s s' s'' laws at size h k found children =
      let url = url_of (path_of get_children (w.uuid_text id) "") (client_query settings) in
      let (asked, read, same) =
        settings_read (storage_options_from_get_query (client_query settings))
          (build_options settings) (client_query_lem settings page limit at size h k) in
      let matched = matched_of get_children (w.uuid_text id) "" in
      let known : parse_directory_id f.uuid_parse (w.uuid_text id) ≡ ok id =
        rw (laws.parsed_id id, parse_directory_id) refl in
      let answered =
        list_children_answer (request_of f matched url none) asked id d ids s s' s'' read known
          (found asked same) (children asked same) in
      let page_same = pagination_response_ext (f.origin_of url) (length ids) asked settings same in
      call_ok "error getting children" w.parse_list Calls.get
        (path_of get_children (w.uuid_text id) "") (client_query settings) none matched
        (record {
          status = 200;
          body = listing ids (pagination_response (f.origin_of url) (length ids) asked);
        })
        (record {
          directories = ids;
          pagination = pagination_response (f.origin_of url) (length ids) asked;
        })
        s s'' (laws.routed get_children (w.uuid_text id) "") answered
        (laws.parsed_list ids (pagination_response (f.origin_of url) (length ids) asked))
      ∙ rw page_same refl

  -- The handler of creations, when the driver finds the parent and creates.
  create_directory_answer :
      (r : Request) (req : CreateDirectoryRequest) (id : DirectoryId) (d made : Directory)
      (s s' s'' : S)
      → r.create_body ≡ some req
      → parse_directory_id f.uuid_parse r.id ≡ ok id
      → t.get_directory id [] s ≡ (ok d, s')
      → t.create_directory (requested req (some d.id)) s' ≡ (ok made, s'')
      → create_directory f.uuid_parse t r s
        ≡ (ok (record { status = 201; body = one_directory made }), s'')
  unfolding create_directory
  create_directory_answer r req id d made s s' s'' body parsed found created =
      rw (parsed, body, found, created) refl

  -- With a router that finds the handlers and a codec that carries the body and the answer,
  -- CreateDirectory of the client over the server gives the directory that the driver makes below the parent
  -- that the driver finds, and the state is the one that the driver leaves.
  pub create_directory_served :
      (req : CreateDirectoryRequest) (bytes : Bytes) (parent : DirectoryId) (d made : Directory)
      (s s' s'' : S)
      → IsConnected w f
      → w.encode_create req ≡ some bytes
      → f.decode_create bytes ≡ some req
      → w.parse_fetch (f.render (one_directory made)) ≡ some made
      → t.get_directory parent [] s ≡ (ok d, s')
      → t.create_directory (requested req (some d.id)) s' ≡ (ok made, s'')
      → Calls.create_directory w connected req parent s ≡ (ok made, s'')
  unfolding Calls.create_directory
  create_directory_served req bytes parent d made s s' s'' laws encoded decoded understood found
        created =
      let url = url_of (path_of post_id (w.uuid_text parent) "") no_query in
      let matched = matched_of post_id (w.uuid_text parent) "" in
      let known : parse_directory_id f.uuid_parse (w.uuid_text parent) ≡ ok parent =
        rw (laws.parsed_id parent, parse_directory_id) refl in
      let answered =
        create_directory_answer (request_of f matched url (some bytes)) req parent d made s s' s''
          decoded known found created in
      rw encoded (
        call_ok "error creating directory" w.parse_fetch Calls.post
          (path_of post_id (w.uuid_text parent) "") no_query (some bytes) matched
          (record { status = 201; body = one_directory made }) made s s''
          (laws.routed post_id (w.uuid_text parent) "") answered understood)
