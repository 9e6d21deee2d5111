-- ===== src/Http/Keeps.antt =====
-- The server over a driver whose calls keep a property of its state.
use fertilesoil.Base.{
  Bool, true, false, ◌≡◌, refl, Option, none, some, List, [], String, Outcome, ok, err, err_with,
  panic, diverge, Action, attempt, lift, is_not_found, ◌>>=◌, nil_dereference,
}
use fertilesoil.Api.{DirectoryId, Directory, parse_directory_id}
use fertilesoil.Storage.Options.{Setting}
use fertilesoil.Storage.Interface.{DirectoryAdmin}
use fertilesoil.Http.Query.{storage_options_from_get_query}
use fertilesoil.Http.Handlers.{
  Request, Response, requested, apply_update, Route, serve, create_root_directory, create_directory,
  update_directory, delete_directory, list_roots, get_directory, list_children, list_parents,
  list_parents_until, message, binding_error, respond, output_get_directory_error, with_options,
  get_directory_from_reference, list_response, get_roots, post_roots, get_id, post_id, patch_id,
  delete_id, get_children, get_parents, get_parents_until,
}
use fertilesoil.Http.Kept.{resume_kept, either_kept, body_kept, missing_kept, output_kept}

-- The calls of the driver that read keep the property.
pub record KeepsReads {S : Type 0} (P : S → Type 0) (t : DirectoryAdmin S) : Type 0 where
  pub directory_kept :
      (id : DirectoryId) (settings : List Setting) (s : S)
      → P s
      → P (t.get_directory id settings s).1
  pub parents_kept :
      (id : DirectoryId) (settings : List Setting) (s : S) → P s → P (t.get_parents id settings s).1
  pub until_kept :
      (id until : DirectoryId) (settings : List Setting) (s : S)
      → P s
      → P (t.get_parents_until_ancestor id until settings s).1
  pub children_kept :
      (id : DirectoryId) (settings : List Setting) (s : S)
      → P s
      → P (t.get_children id settings s).1
  pub roots_kept : (settings : List Setting) (s : S) → P s → P (t.list_roots settings s).1

-- Every call of the driver keeps the property.
pub record Keeps {S : Type 0} (P : S → Type 0) (t : DirectoryAdmin S) : Type 0 where
  pub reads : KeepsReads P t
  pub creation_kept : (d : Directory) (s : S) → P s → P (t.create_directory d s).1
  pub update_kept : (d : Directory) (s : S) → P s → P (t.update_directory d s).1
  pub deletion_kept : (id : DirectoryId) (s : S) → P s → P (t.delete_directory id s).1
  pub root_kept : (d : Directory) (s : S) → P s → P (t.create_root d s).1

abbrev pub is_reading : Route → Bool
is_reading get_roots = true
is_reading get_id = true
is_reading get_children = true
is_reading get_parents = true
is_reading get_parents_until = true
is_reading _ = false

module _ {S : Type 0} (P : S → Type 0) (uuid_parse : String → Option DirectoryId)
    (t : DirectoryAdmin S) (reads : KeepsReads P t) (r : Request) where
  reference_kept :
      (o : Outcome DirectoryId) (settings : List Setting) (s : S)
      → P s
      → P ((lift o >>= λ id. t.get_directory id settings) s).1
  reference_kept (ok id) settings s h = reads.directory_kept id settings s h
  reference_kept (err e) settings s h = h
  reference_kept (err_with id e) settings s h = h
  reference_kept (panic p) settings s h = h
  reference_kept diverge settings s h = h

  options_kept :
      (s : S) (f : List Setting → Action S Response)
      → P s
      → ((settings : List Setting) (s : S) → P s → P (f settings s).1)
      → P (with_options uuid_parse t r f s).1
  options_kept s f h k =
      resume_kept P (storage_options_from_get_query r.query, s) _ _ h (λ e s kept. kept) k

  from_reference_kept :
      (text : String) (settings : List Setting) (s : S) (f : Directory → Action S Response)
      → P s
      → ((d : Directory) (s : S) → P s → P (f d s).1)
      → P
          (attempt
            (get_directory_from_reference uuid_parse t text settings)
            output_get_directory_error
            f
            s).1
  from_reference_kept text settings s f h k =
      resume_kept P (get_directory_from_reference uuid_parse t text settings s) _ _
        (reference_kept (parse_directory_id uuid_parse text) settings s h) (output_kept P) k

  list_kept :
      (settings : List Setting) (ids : Action S (List DirectoryId)) (s : S)
      → P (ids s).1
      → P (list_response uuid_parse t r settings ids s).1
  list_kept settings ids s h = resume_kept P (ids s) _ _ h (λ e s kept. kept) (λ ids s kept. kept)

  list_roots_kept : (s : S) → P s → P (list_roots uuid_parse t r s).1
  unfolding list_roots
  list_roots_kept s h = options_kept s _ h (λ settings s kept.
      list_kept settings (t.list_roots settings) s (reads.roots_kept settings s kept))

  get_directory_kept : (s : S) → P s → P (get_directory uuid_parse t r s).1
  unfolding get_directory
  get_directory_kept s h =
      options_kept s _ h
        (λ settings s kept. from_reference_kept r.id settings s _ kept (λ d s kept. kept))

  list_children_kept : (s : S) → P s → P (list_children uuid_parse t r s).1
  unfolding list_children
  list_children_kept s h = options_kept s _ h (λ settings s kept.
      from_reference_kept r.id settings s _ kept (λ d s kept.
        list_kept settings (t.get_children d.id settings) s
          (reads.children_kept d.id settings s kept)))

  list_parents_kept : (s : S) → P s → P (list_parents uuid_parse t r s).1
  unfolding list_parents
  list_parents_kept s h = options_kept s _ h (λ settings s kept.
      from_reference_kept r.id settings s _ kept (λ d s kept.
        list_kept settings (t.get_parents d.id settings) s
          (reads.parents_kept d.id settings s kept)))

  list_parents_until_kept : (s : S) → P s → P (list_parents_until uuid_parse t r s).1
  unfolding list_parents_until
  list_parents_until_kept s h = options_kept s _ h (λ settings s kept.
      from_reference_kept r.id settings s _ kept (λ d s kept.
        from_reference_kept r.until settings s _ kept (λ u s kept.
          list_kept settings (t.get_parents_until_ancestor d.id u.id settings) s
            (reads.until_kept d.id u.id settings s kept))))

  -- A request to a route that reads keeps what the reading calls of the driver keep.
  pub serve-KeepsReads :
      (route : Route) (s : S) → is_reading route ≡ true → P s → P (serve uuid_parse t route r s).1
  serve-KeepsReads get_roots s reading h = list_roots_kept s h
  serve-KeepsReads get_id s reading h = get_directory_kept s h
  serve-KeepsReads get_children s reading h = list_children_kept s h
  serve-KeepsReads get_parents s reading h = list_parents_kept s h
  serve-KeepsReads get_parents_until s reading h = list_parents_until_kept s h
  serve-KeepsReads post_roots s reading h = absurd (cc)
  serve-KeepsReads post_id s reading h = absurd (cc)
  serve-KeepsReads patch_id s reading h = absurd (cc)
  serve-KeepsReads delete_id s reading h = absurd (cc)

module _ {S : Type 0} (P : S → Type 0) (uuid_parse : String → Option DirectoryId)
    (t : DirectoryAdmin S) (laws : Keeps P t) (r : Request) where
  with_id_kept :
      (f : DirectoryId → Action S Response) (s : S)
      → P s
      → ((id : DirectoryId) (s : S) → P s → P (f id s).1)
      → P
          (attempt
            (lift (parse_directory_id uuid_parse r.id))
            (λ e. respond 400 (message "invalid id"))
            f
            s).1
  with_id_kept f s h k =
      resume_kept P (parse_directory_id uuid_parse r.id, s) _ _ h (λ e s kept. kept) k

  create_root_kept : (s : S) → P s → P (create_root_directory uuid_parse t r s).1
  unfolding create_root_directory
  create_root_kept s h = body_kept P r.create_body (respond 400 binding_error) _ s h (λ req.
      resume_kept P (t.create_root (requested req none) s) _ _
        (laws.root_kept (requested req none) s h) (λ e s kept. kept) (λ d s kept. kept))

  create_directory_kept : (s : S) → P s → P (create_directory uuid_parse t r s).1
  unfolding create_directory
  create_directory_kept s h = with_id_kept _ s h (λ id s kept.
      body_kept P r.create_body (respond 400 binding_error) _ s kept (λ req.
        resume_kept P (t.get_directory id [] s) _ _ (laws.reads.directory_kept id [] s kept)
          (λ e s kept. missing_kept P 400 "parent directory not found" e s kept)
          (λ d s kept.
            resume_kept P (t.create_directory (requested req (some d.id)) s) _ _
              (laws.creation_kept (requested req (some d.id)) s kept) (λ e s kept. kept)
              (λ d s kept. kept))))

  update_directory_kept : (s : S) → P s → P (update_directory uuid_parse t r s).1
  unfolding update_directory
  update_directory_kept s h = with_id_kept _ s h (λ id s kept.
      body_kept P r.update_body (respond 400 binding_error) _ s kept (λ req.
        resume_kept P (t.get_directory id [] s) _ _ (laws.reads.directory_kept id [] s kept)
          (λ e s kept.
            either_kept P (is_not_found e) (respond 404 (message "directory not found"))
              (lift (panic nil_dereference)) s kept kept)
          (λ d s kept.
            resume_kept P (t.update_directory (apply_update req d) s) _ _
              (laws.update_kept (apply_update req d) s kept) (λ e s kept. kept)
              (λ d s kept. kept))))

  delete_directory_kept : (s : S) → P s → P (delete_directory uuid_parse t r s).1
  unfolding delete_directory
  delete_directory_kept s h = with_id_kept _ s h (λ id s kept.
      resume_kept P (t.delete_directory id s) _ _ (laws.deletion_kept id s kept)
        (λ e s kept. missing_kept P 404 "directory not found" e s kept) (λ affected s kept. kept))

  -- One request keeps what the calls of the driver keep, however it ends.
  pub serve-Keeps : (route : Route) (s : S) → P s → P (serve uuid_parse t route r s).1
  serve-Keeps post_roots s h = create_root_kept s h
  serve-Keeps post_id s h = create_directory_kept s h
  serve-Keeps patch_id s h = update_directory_kept s h
  serve-Keeps delete_id s h = delete_directory_kept s h
  serve-Keeps get_roots s h = serve-KeepsReads P uuid_parse t laws.reads r get_roots s refl h
  serve-Keeps get_id s h = serve-KeepsReads P uuid_parse t laws.reads r get_id s refl h
  serve-Keeps get_children s h = serve-KeepsReads P uuid_parse t laws.reads r get_children s refl h
  serve-Keeps get_parents s h = serve-KeepsReads P uuid_parse t laws.reads r get_parents s refl h
  serve-Keeps get_parents_until s h =
      serve-KeepsReads P uuid_parse t laws.reads r get_parents_until s refl h
