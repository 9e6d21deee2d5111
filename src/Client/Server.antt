-- ===== src/Client/Server.antt =====
-- The server as what the client is connected to: newHandler's routes, and a request that gin takes
-- to the handler of its route.
use fertilesoil.Base.{Option, none, some, List, [], ◌∷◌, String, Action, pure, ◌>>=◌}
use fertilesoil.Api.{DirectoryId}
use fertilesoil.Storage.Interface.{DirectoryAdmin}
use fertilesoil.Http.Link.{Origin}
use fertilesoil.Http.Handlers.{
  CreateDirectoryRequest, UpdateDirectoryRequest, Request, Response, Body, Route, get_roots,
  post_roots, get_id, post_id, patch_id, delete_id, get_children, get_parents, get_parents_until,
  serve,
}
use fertilesoil.Client.Calls.{Method, get, post, patch, delete, Url, HttpResponse, Transport}

-- The method and the pattern that each handler is registered with; its parameters are `args`.
abbrev pub method_of : Route → Method
method_of get_roots = get
method_of post_roots = post
method_of get_id = get
method_of post_id = post
method_of patch_id = patch
method_of delete_id = delete
method_of get_children = get
method_of get_parents = get
method_of get_parents_until = get

-- The path of a route with the parameters `id` and `until` in their places.
abbrev pub path_of : Route → String → String → List String
path_of get_roots id until = "api" ∷ "v1" ∷ "roots" ∷ []
path_of post_roots id until = "api" ∷ "v1" ∷ "roots" ∷ []
path_of get_id id until = "api" ∷ "v1" ∷ "directories" ∷ id ∷ []
path_of post_id id until = "api" ∷ "v1" ∷ "directories" ∷ id ∷ []
path_of patch_id id until = "api" ∷ "v1" ∷ "directories" ∷ id ∷ []
path_of delete_id id until = "api" ∷ "v1" ∷ "directories" ∷ id ∷ []
path_of get_children id until = "api" ∷ "v1" ∷ "directories" ∷ id ∷ "children" ∷ []
path_of get_parents id until = "api" ∷ "v1" ∷ "directories" ∷ id ∷ "parents" ∷ []
path_of get_parents_until id until = "api" ∷ "v1" ∷ "directories" ∷ id ∷ "parents" ∷ until ∷ []

-- gin's choice of the handler, with the parameters of the path.
pub record Matched : Type 0 where
  pub route : Route
  pub id : String
  pub until : String

-- What the server makes of bytes, and foreign code of the request.
pub record Front (Bytes : Type 0) : Type 0 where
  pub find_route : Method → List String → Option Matched
  pub uuid_parse : String → Option DirectoryId
  pub decode_create : Bytes → Option CreateDirectoryRequest
  pub decode_update : Bytes → Option UpdateDirectoryRequest
  pub render : Body → Bytes
  pub origin_of : Url → Origin
  pub no_route : Response

module _ {Bytes : Type 0} (f : Front Bytes) where
  abbrev pub decoded : {A : Type 0} → (Bytes → Option A) → Option Bytes → Option A
  decoded decode none = none
  decoded decode (some b) = decode b

  abbrev pub request_of : Matched → Url → Option Bytes → Request
  request_of found url body = record {
    id = found.id;
    until = found.until;
    query = url.query;
    origin = f.origin_of url;
    create_body = decoded f.decode_create body;
    update_body = decoded f.decode_update body;
  }

  module _ {S : Type 0} (t : DirectoryAdmin S) where
    abbrev pub answer : Response → HttpResponse Bytes
    answer r = record { status_code = r.status; body = f.render r.body }

    abbrev pub handle : Option Matched → Url → Option Bytes → Action S Response
    handle none url body = pure f.no_route
    handle (some found) url body = serve f.uuid_parse t found.route (request_of found url body)

    abbrev pub served : Transport S Bytes
    served method url body = do
      r ← handle (f.find_route method url.segments) url body
      pure (answer r)
