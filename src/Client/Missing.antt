-- ===== src/Client/Missing.antt =====
-- What the client sees of a directory that the driver does not find.
use fertilesoil.Base.{
  ℕ, ◌<◌, ◌≡◌, refl, Bool, true, false, Option, none, some, List, ◌==◌, String, ok, err, Error,
  is_not_found, is_parsing_id,
}
use fertilesoil.Base.Int.{pos, int_half}
use fertilesoil.Api.{DirectoryId, parse_directory_id}
use fertilesoil.Storage.Options.{Setting, build_options}
use fertilesoil.Storage.Interface.{DirectoryAdmin}
use fertilesoil.Http.Query.{Query, client_query, storage_options_from_get_query}
use fertilesoil.Http.Pages.{client_query_lem}
use fertilesoil.Http.Handlers.{
  Request, Response, Route, get_id, get_children, get_parents, get_parents_until, serve, message,
}
use fertilesoil.Http.Handlers
use fertilesoil.Client.Calls.{Method, Wire, call, status_error}
use fertilesoil.Client.Calls
use fertilesoil.Client.Server.{Front, Matched, method_of, path_of, request_of}
use fertilesoil.Client.Served.{
  IsConnected, connected, url_of, matched_of, do_raw_served, settings_read,
}

-- The answer of the server to a directory that is not there.
abbrev not_there : Response
not_there = record { status = 404; body = message "directory not found" }

abbrev is_reading_one : Route → Bool
is_reading_one get_id = true
is_reading_one get_children = true
is_reading_one get_parents = true
is_reading_one get_parents_until = true
is_reading_one _ = false

module _ {S Bytes : Type 0} (w : Wire Bytes) (f : Front Bytes) (t : DirectoryAdmin S) where
  call_failed :
      {A : Type 0} (text : String) (status : ℕ) (parse : Bytes → Option A) (method : Method)
      (path : List String) (query : Query) (body : Option Bytes) (found : Matched) (r : Response)
      (s s' : S)
      → f.find_route method path ≡ some found
      → serve f.uuid_parse t found.route (request_of f found (url_of w f t path query) body) s
        ≡ (ok r, s')
      → (r.status == status) ≡ false
      → call w (connected w f t) text status parse method path query body s
        ≡ (err (status_error text r.status), s')
  call_failed text status parse method path query body found r s s' at_route answered other =
      rw (do_raw_served w f t method path query body found r s s' at_route answered) (rw other refl)

  -- The handlers that read one directory first.
  missing_answer :
      (route : Route) (r : Request) (settings : List Setting) (id : DirectoryId) (e : Error)
      (s s' : S)
      → is_reading_one route ≡ true
      → storage_options_from_get_query r.query ≡ ok settings
      → parse_directory_id f.uuid_parse r.id ≡ ok id
      → t.get_directory id settings s ≡ (err e, s')
      → is_parsing_id e ≡ false
      → is_not_found e ≡ true
      → serve f.uuid_parse t route r s ≡ (ok not_there, s')
  unfolding Handlers.get_directory Handlers.list_children Handlers.list_parents
      Handlers.list_parents_until
  missing_answer get_id r settings id e s s' reading options parsed found well absent =
      rw (options, parsed, found, well, absent) refl
  missing_answer get_children r settings id e s s' reading options parsed found well absent =
      rw (options, parsed, found, well, absent) refl
  missing_answer get_parents r settings id e s s' reading options parsed found well absent =
      rw (options, parsed, found, well, absent) refl
  missing_answer get_parents_until r settings id e s s' reading options parsed found well absent =
      rw (options, parsed, found, well, absent) refl
  missing_answer Handlers.get_roots r settings id e s s' reading options parsed found well absent =
      absurd (cc)
  missing_answer Handlers.post_roots r settings id e s s' reading options parsed found well absent =
      absurd (cc)
  missing_answer Handlers.post_id r settings id e s s' reading options parsed found well absent =
      absurd (cc)
  missing_answer Handlers.patch_id r settings id e s s' reading options parsed found well absent =
      absurd (cc)
  missing_answer Handlers.delete_id r settings id e s s' reading options parsed found well absent =
      absurd (cc)

  module _ (settings : List Setting) (page limit : ℕ) (id until : DirectoryId) (e : Error)
      (s s' : S) (laws : IsConnected w f) (at : (build_options settings).page ≡ pos page)
      (size : (build_options settings).page_size ≡ pos limit) (small : page < int_half)
      (few : limit < int_half)
      (missing : (asked : List Setting)
        → build_options asked ≡ build_options settings
        → t.get_directory id asked s ≡ (err e, s'))
      (well : is_parsing_id e ≡ false) (absent : is_not_found e ≡ true) where
    -- One call: the request finds its handler, which does not find the directory.
    reading_failed :
        {A : Type 0} (text : String) (parse : Bytes → Option A) (route : Route)
        → is_reading_one route ≡ true
        → (matched_of route (w.uuid_text id) (w.uuid_text until)).id ≡ w.uuid_text id
        → call w
            (connected w f t)
            text
            200
            parse
            (method_of route)
            (path_of route (w.uuid_text id) (w.uuid_text until))
            (client_query settings)
            none
            s
          ≡ (err (status_error text 404), s')
    reading_failed text parse route reading named =
        let (asked, read, same) =
          settings_read (storage_options_from_get_query (client_query settings))
            (build_options settings) (client_query_lem settings page limit at size small few) in
        let matched = matched_of route (w.uuid_text id) (w.uuid_text until) in
        let known : parse_directory_id f.uuid_parse matched.id ≡ ok id =
          rw (named, laws.parsed_id id, parse_directory_id) refl in
        let path = path_of route (w.uuid_text id) (w.uuid_text until) in
        call_failed text 200 parse (method_of route) path (client_query settings) none matched
          not_there s s' (laws.routed route (w.uuid_text id) (w.uuid_text until))
          (missing_answer route
            (request_of f matched (url_of w f t path (client_query settings)) none) asked id e s s'
            reading read known (missing asked same) well absent)
          refl

    -- With codecs that agree and a router that finds the handlers, when the driver does not find a directory, the
    -- calls of the client that read it (GetDirectory, GetChildren, GetParents and GetParentsUntil) fail with the
    -- status 404, and their own text, and have no other effect than that of the call of the driver. The error of the
    -- driver is ErrDirectoryNotFound, possibly wrapped, for all settings that mean the options of the client; page and
    -- size are natural numbers below 2 ^ 63.
    pub reading_missing_served :
        (Calls.get_directory w (connected w f t) id settings s
          ≡ (err (status_error "error getting directory" 404), s'))
        × (Calls.get_children w (connected w f t) id settings s
            ≡ (err (status_error "error getting children" 404), s'))
        × (Calls.get_parents w (connected w f t) id settings s
            ≡ (err (status_error "error getting parents" 404), s'))
        × (Calls.get_parents_until w (connected w f t) id until settings s
            ≡ (err (status_error "error getting parents" 404), s'))
    unfolding Calls.get_directory Calls.get_children Calls.do_get_parents
    reading_missing_served = (
      reading_failed "error getting directory" w.parse_fetch get_id refl refl,
      reading_failed "error getting children" w.parse_list get_children refl refl,
      reading_failed "error getting parents" w.parse_list get_parents refl refl,
      reading_failed "error getting parents" w.parse_list get_parents_until refl refl,
    )
