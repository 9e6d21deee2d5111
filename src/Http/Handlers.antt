-- ===== src/Http/Handlers.antt =====
-- The handlers of the server, over a DirectoryAdmin. A handler ends with a response; a panic of
-- what it calls goes on to gin.
use fertilesoil.Base.{
  Bool, true, false, Option, none, some, List, [], map, if◌then◌else◌, length, ℕ, String, Error,
  is_not_found, is_parsing_id, panic, nil_dereference, Action, pure, lift, attempt, ◌>>=◌,
}
use fertilesoil.Api.{DirectoryId, Metadata, Directory, parse_directory_id}
use fertilesoil.Storage.Options.{Setting}
use fertilesoil.Storage.Interface.{DirectoryAdmin}
use fertilesoil.Http.Query.{Query, storage_options_from_get_query}
use fertilesoil.Http.Link.{Origin, Pagination, pagination_response}

pub record CreateDirectoryRequest : Type 0 where
  pub name : String
  pub metadata : Option Metadata

pub record UpdateDirectoryRequest : Type 0 where
  pub new_name : Option String
  pub new_metadata : Option Metadata

-- A body that ShouldBindJSON refuses is none.
pub record Request : Type 0 where
  pub id : String
  pub until : String
  pub query : Query
  pub origin : Origin
  pub create_body : Option CreateDirectoryRequest
  pub update_body : Option UpdateDirectoryRequest

pub data Body : Type 0 where
  message : String → Body
  error_text : Error → Body
  binding_error : Body
  one_directory : Directory → Body
  listing : List DirectoryId → Pagination → Body
  affected_list : List DirectoryId → Body

pub record Response : Type 0 where
  pub status : ℕ
  pub body : Body

abbrev pub respond : {S : Type 0} → ℕ → Body → Action S Response
respond status body = pure (record { status = status; body = body })

-- `v1.Directory{Name: ..., Metadata: ..., Parent: ...}`
abbrev pub requested : CreateDirectoryRequest → Option DirectoryId → Directory
requested req parent = record {
  created_at = record { instant = 0; location = 0 };
  deleted_at = none;
  id = 0;
  metadata = req.metadata;
  name = req.name;
  parent = parent;
  updated_at = record { instant = 0; location = 0 };
}

-- `if req.Name != nil && *req.Name != "" { d.Name = *req.Name }`, and the metadata
abbrev pub is_empty_text : String → Bool
is_empty_text String.[] = true
is_empty_text text = false

abbrev pub rename : Option String → Directory → Directory
rename none d = d
rename (some name) d = if is_empty_text name then d else record d { name = name }

abbrev pub apply_update : UpdateDirectoryRequest → Directory → Directory
apply_update req d = elim req.new_metadata [
  | none ↦ rename req.new_name d
  | some data_ ↦ record (rename req.new_name d) { metadata = some data_ }
]

abbrev pub output_get_directory_error : {S : Type 0} → Error → Action S Response
output_get_directory_error e =
    if is_parsing_id e
    then respond 400 (message "invalid id")
    else if is_not_found e
    then respond 404 (message "directory not found")
    else respond 500 (message "internal server error")

abbrev pub internal_error : {S : Type 0} → Error → Action S Response
internal_error e = respond 500 (message "internal server error")

module _ (uuid_parse : String → Option DirectoryId) {S : Type 0} (t : DirectoryAdmin S) where
  abbrev pub parse_id : String → Action S DirectoryId
  parse_id text = lift (parse_directory_id uuid_parse text)

  abbrev pub get_directory_from_reference : String → List Setting → Action S Directory
  get_directory_from_reference text settings = do id ← parse_id text; t.get_directory id settings

  -- The options of a listing, or a bad request.
  abbrev pub with_options : Request → (List Setting → Action S Response) → Action S Response
  with_options r =
      attempt (lift (storage_options_from_get_query r.query))
        (λ e. respond 400 (message "bad request"))

  -- The end of every listing.
  abbrev pub list_response :
      Request → List Setting → Action S (List DirectoryId) → Action S Response
  list_response r settings ids =
      attempt ids internal_error (λ found.
        respond 200 (listing found (pagination_response r.origin (length found) settings)))

  unfoldable pub list_roots : Request → Action S Response
  list_roots r = with_options r (λ settings. list_response r settings (t.list_roots settings))

  unfoldable pub create_root_directory : Request → Action S Response
  create_root_directory r = elim r.create_body [
    | none ↦ respond 400 binding_error
    | some req ↦
        attempt (t.create_root (requested req none)) (λ e. respond 500 (error_text e))
          (λ d. respond 201 (one_directory d))
  ]

  unfoldable pub get_directory : Request → Action S Response
  get_directory r = with_options r (λ settings.
      attempt (get_directory_from_reference r.id settings) output_get_directory_error
        (λ d. respond 200 (one_directory d)))

  -- `errors.Is(err, storage.ErrDirectoryNotFound)` picks the status.
  abbrev pub not_found_or : ℕ → String → Error → Action S Response
  not_found_or status text e =
      if is_not_found e then respond status (message text) else internal_error e

  -- createDirectory, once the parent is found
  abbrev pub create_below : CreateDirectoryRequest → Directory → Action S Response
  create_below req parent =
      attempt (t.create_directory (requested req (some parent.id))) internal_error
        (λ d. respond 201 (one_directory d))

  unfoldable pub create_directory : Request → Action S Response
  create_directory r =
      attempt (parse_id r.id) (λ e. respond 400 (message "invalid id"))
        (λ id. elim r.create_body [
          | none ↦ respond 400 binding_error
          | some req ↦
              attempt (t.get_directory id []) (not_found_or 400 "parent directory not found")
                (create_below req)
        ])

  -- An error of GetDirectory other than "not found" is not looked at: `d` is nil then, and the
  -- first use of it panics.
  abbrev pub update_unfound : Error → Action S Response
  update_unfound e =
      if is_not_found e
      then respond 404 (message "directory not found")
      else lift (panic nil_dereference)

  unfoldable pub update_directory : Request → Action S Response
  update_directory r =
      attempt (parse_id r.id) (λ e. respond 400 (message "invalid id"))
        (λ id. elim r.update_body [
          | none ↦ respond 400 binding_error
          | some req ↦ attempt (t.get_directory id []) update_unfound (λ d.
              attempt (t.update_directory (apply_update req d))
                (λ e. respond 500 (message "failed to update directory"))
                (λ d'. respond 200 (one_directory d')))
        ])

  unfoldable pub delete_directory : Request → Action S Response
  delete_directory r =
      attempt (parse_id r.id) (λ e. respond 400 (message "invalid id"))
        (λ id.
          attempt (t.delete_directory id) (not_found_or 404 "directory not found")
            (λ affected. respond 200 (affected_list (map (λ (d : Directory). d.id) affected))))

  unfoldable pub list_children : Request → Action S Response
  list_children r = with_options r (λ settings.
      attempt (get_directory_from_reference r.id settings) output_get_directory_error
        (λ dir. list_response r settings (t.get_children dir.id settings)))

  unfoldable pub list_parents : Request → Action S Response
  list_parents r = with_options r (λ settings.
      attempt (get_directory_from_reference r.id settings) output_get_directory_error
        (λ dir. list_response r settings (t.get_parents dir.id settings)))

  unfoldable pub list_parents_until : Request → Action S Response
  list_parents_until r = with_options r (λ settings.
      attempt (get_directory_from_reference r.id settings) output_get_directory_error (λ dir.
        attempt (get_directory_from_reference r.until settings) output_get_directory_error (λ until.
          list_response r settings (t.get_parents_until_ancestor dir.id until.id settings))))

-- The routes that newHandler registers, without those of the API's version.
pub data Route : Type 0 where
  get_roots post_roots get_id post_id patch_id delete_id get_children get_parents
        get_parents_until :
      Route

abbrev pub serve :
    (String → Option DirectoryId)
    → {S : Type 0} → DirectoryAdmin S
    → Route
    → Request
    → Action S Response
serve uuid_parse t get_roots = list_roots uuid_parse t
serve uuid_parse t post_roots = create_root_directory uuid_parse t
serve uuid_parse t get_id = get_directory uuid_parse t
serve uuid_parse t post_id = create_directory uuid_parse t
serve uuid_parse t patch_id = update_directory uuid_parse t
serve uuid_parse t delete_id = delete_directory uuid_parse t
serve uuid_parse t get_children = list_children uuid_parse t
serve uuid_parse t get_parents = list_parents uuid_parse t
serve uuid_parse t get_parents_until = list_parents_until uuid_parse t
