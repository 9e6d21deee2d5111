-- ===== src/Client/Calls.antt =====
-- The calls of the HTTP client (client/v1/impl.go). The connection, the JSON codec and the text of a
-- UUID are foreign: the fields of `Wire` and the field `client`.
use fertilesoil.Base.{
  ℕ, Option, none, some, List, [], ◌∷◌, ◌++◌, ◌==◌, if◌then◌else◌, String, Error, other, wrap,
  Action, pure, raise, attempt,
}
use fertilesoil.Api.{DirectoryId, Directory}
use fertilesoil.Storage.Options.{Setting}
use fertilesoil.Http.Strconv.{Text}
use fertilesoil.Http.Query.{Query, no_query, client_query}
use fertilesoil.Http.Link.{Pagination}
use fertilesoil.Http.Handlers.{CreateDirectoryRequest, UpdateDirectoryRequest}

pub data Method : Type 0 where
  get post patch delete : Method

-- A URL, its path as the segments between the slashes.
pub record Url : Type 0 where
  pub scheme : String
  pub host : String
  pub segments : List String
  pub query : Query

pub record DirectoryList : Type 0 where
  pub directories : List DirectoryId
  pub pagination : Pagination

-- What the client makes of values and bytes. An error of the codec is none.
pub record Wire (Bytes : Type 0) : Type 0 where
  pub uuid_text : DirectoryId → String
  pub encode_create : CreateDirectoryRequest → Option Bytes
  pub encode_update : UpdateDirectoryRequest → Option Bytes
  pub parse_fetch : Bytes → Option Directory
  pub parse_list : Bytes → Option DirectoryList

pub record HttpResponse (Bytes : Type 0) : Type 0 where
  pub status_code : ℕ
  pub body : Bytes

-- `http.Client.Do` on a request, over the state of what the client is connected to.
abbrev pub Transport : Type 0 → Type 0 → Type 0
Transport S Bytes = Method → Url → Option Bytes → Action S (HttpResponse Bytes)

pub record ClientConfig (S Bytes : Type 0) : Type 0 where
  pub manager_url : Option Url
  pub client : Option (Transport S Bytes)

pub record HttpClient (S Bytes : Type 0) : Type 0 where
  pub c : Transport S Bytes
  pub manager_url : Url

abbrev pub default_url : Url
default_url = record { scheme = "http"; host = "localhost:8080"; segments = []; query = no_query }

abbrev pub or_default : {A : Type 0} → A → Option A → A
or_default a none = a
or_default a (some b) = b

-- newFullHTTPClient; `default_client` is the http.Client with the default transport.
unfoldable pub new_full_http_client :
    {S Bytes : Type 0} → Transport S Bytes → Option (ClientConfig S Bytes) → HttpClient S Bytes
new_full_http_client default_client cfg =
    let own = or_default (record { manager_url = none; client = none }) cfg in
    record {
      c = or_default default_client own.client;
      manager_url = or_default default_url own.manager_url;
    }

-- `for k, v := range uPath.Query() { values[k] = v }`
abbrev pub override : Option Text → Option Text → Option Text
override base none = base
override base (some v) = some v

abbrev pub merge_query : Query → Query → Query
merge_query base own = record {
  with_deleted_value = override base.with_deleted_value own.with_deleted_value;
  page_value = override base.page_value own.page_value;
  limit_value = override base.limit_value own.limit_value;
}

-- `fmt.Errorf("error encoding request: %w", err)` and the like, on errors of foreign code.
abbrev pub encoding_failed : Error
encoding_failed = wrap "error encoding request" (other 6)

abbrev pub parsing_failed : Error
parsing_failed = wrap "error parsing response" (other 7)

-- `fmt.Errorf("...: %s", resp.Status)`
abbrev pub status_error : String → ℕ → Error
status_error text status = wrap text (other status)

module _ {S Bytes : Type 0} (w : Wire Bytes) (h : HttpClient S Bytes) where
  unfoldable pub do_raw :
      Method → List String → Query → Option Bytes → Action S (HttpResponse Bytes)
  do_raw method path query body =
      h.c method
        (record h.manager_url {
          segments = h.manager_url.segments ++ path;
          query = merge_query h.manager_url.query query;
        })
        body

  abbrev pub parsed : {A : Type 0} → Option A → Action S A
  parsed none = raise parsing_failed
  parsed (some a) = pure a

  -- The end of every call: the request, the test of the status, the parser of the body.
  abbrev pub call :
      {A : Type 0}
      → String
      → ℕ
      → (Bytes → Option A)
      → Method
      → List String
      → Query
      → Option Bytes
      → Action S A
  call text status parse method path query body =
      attempt (do_raw method path query body) (λ e. raise (wrap text e))
        (λ resp.
          if resp.status_code == status
          then parsed (parse resp.body)
          else raise (status_error text resp.status_code))

  -- `r, err := c.encode(cdr)`
  abbrev pub encode : {A : Type 0} → Option Bytes → (Bytes → Action S A) → Action S A
  encode none k = raise encoding_failed
  encode (some r) k = k r

  abbrev pub roots_path : List String
  roots_path = "api" ∷ "v1" ∷ "roots" ∷ []

  abbrev pub directory_path : DirectoryId → List String
  directory_path id = "api" ∷ "v1" ∷ "directories" ∷ w.uuid_text id ∷ []

  unfoldable pub create_directory : CreateDirectoryRequest → DirectoryId → Action S Directory
  create_directory cdr parent = encode (w.encode_create cdr) (λ r.
      call "error creating directory" 201 w.parse_fetch post (directory_path parent) no_query
        (some r))

  unfoldable pub update_directory : DirectoryId → UpdateDirectoryRequest → Action S Directory
  update_directory id udr = encode (w.encode_update udr) (λ r.
      call "error updating directory" 200 w.parse_fetch patch (directory_path id) no_query (some r))

  unfoldable pub create_root : CreateDirectoryRequest → Action S Directory
  create_root cdr =
      encode (w.encode_create cdr)
        (λ r. call "error creating root" 201 w.parse_fetch post roots_path no_query (some r))

  unfoldable pub list_roots : List Setting → Action S DirectoryList
  list_roots settings =
      call "error listing roots" 200 w.parse_list get roots_path (client_query settings) none

  unfoldable pub delete_directory : DirectoryId → Action S DirectoryList
  delete_directory id =
      call "error getting directory" 200 w.parse_list delete (directory_path id) no_query none

  unfoldable pub get_directory : DirectoryId → List Setting → Action S Directory
  get_directory id settings =
      call "error getting directory" 200 w.parse_fetch get (directory_path id)
        (client_query settings) none

  abbrev pub until_path : Option DirectoryId → List String
  until_path none = []
  until_path (some until) = w.uuid_text until ∷ []

  unfoldable pub do_get_parents :
      DirectoryId → Option DirectoryId → List Setting → Action S DirectoryList
  do_get_parents id until settings =
      call "error getting parents" 200 w.parse_list get
        (directory_path id ++ "parents" ∷ until_path until) (client_query settings) none

  abbrev pub get_parents : DirectoryId → List Setting → Action S DirectoryList
  get_parents id = do_get_parents id none

  abbrev pub get_parents_until : DirectoryId → DirectoryId → List Setting → Action S DirectoryList
  get_parents_until id until = do_get_parents id (some until)

  unfoldable pub get_children : DirectoryId → List Setting → Action S DirectoryList
  get_children id settings =
      call "error getting children" 200 w.parse_list get (directory_path id ++ "children" ∷ [])
        (client_query settings) none
