-- ===== src/Http/Invariant.antt =====
-- The server over the in-memory driver, and the invariant of the map.
use fertilesoil.Base.{
  ◌≡◌, refl, sym, subst, true, Option, none, some, List, [], ◌∷◌, String, panic, inl, inr, arith,
  attempt, Ensures, resume-Ensures, lift, is_not_found, nil_dereference,
}
use fertilesoil.Api.{DirectoryId, Directory, parse_directory_id}
use fertilesoil.Storage.DirMap.{directory, DirMap, lookup}
use fertilesoil.Storage.Interface.{Surroundings, memory_driver}
use fertilesoil.Storage.Memory.Tree.{IsTree}
use fertilesoil.Storage.Memory.Writes.{
  create_root-IsTree, create_directory-IsTree, update_directory-IsTree,
}
use fertilesoil.Storage.Memory.Kept.{get_directory-cases, delete_directory-IsTree}
use fertilesoil.Http.Handlers.{
  Request, requested, apply_update, Route, serve, create_root_directory, create_directory,
  update_directory, delete_directory, create_below, CreateDirectoryRequest, message, binding_error,
  one_directory, respond, UpdateDirectoryRequest, get_roots, post_roots, get_id, post_id, patch_id,
  delete_id, get_children, get_parents, get_parents_until,
}
use fertilesoil.Storage.Memory.Read
use fertilesoil.Storage.Memory.Write
use fertilesoil.Storage.Memory.Delete
use fertilesoil.Http.Keeps.{KeepsReads, is_reading, serve-KeepsReads}
use fertilesoil.Http.Kept.{resume_kept, either_kept, body_kept, missing_kept}

-- GetDirectory in a tree leaves the tree and gives one of its directories.
found_directory :
    (id : DirectoryId) (m : DirMap)
    → IsTree m
    → Ensures IsTree
        (λ (d : Directory) s. lookup d.id s ≡ some (directory d))
        (Read.get_directory m id [], m)
found_directory id m tree = elim (get_directory-cases m id [] tree) [
  | inl missing ↦ rw missing tree
  | inr (d, found, entry, same) ↦
      rw found (tree, subst (λ x. lookup x m ≡ some (directory d)) (sym same) entry)
]

module _ (uuid_parse : String → Option DirectoryId) (e : Surroundings) (r : Request) where
  create_root-keeps :
      (m : DirMap) → IsTree m → IsTree (create_root_directory uuid_parse (memory_driver e) r m).1
  unfolding create_root_directory
  create_root-keeps m tree =
      body_kept IsTree r.create_body (respond 400 binding_error) _ m tree (λ req.
        resume_kept IsTree (Write.create_root e.new_id e.now e.later (requested req none) m) _ _
          (create_root-IsTree e.new_id e.now e.later (requested req none) m tree) (λ e s kept. kept)
          (λ d s kept. kept))

  delete_directory-keeps :
      (m : DirMap) → IsTree m → IsTree (delete_directory uuid_parse (memory_driver e) r m).1
  unfolding delete_directory
  delete_directory-keeps m tree =
      resume_kept IsTree (parse_directory_id uuid_parse r.id, m) _ _ tree (λ e s kept. kept)
        (λ id s kept.
          resume_kept IsTree (Delete.delete_directory e.visit e.now id s) _ _
            (delete_directory-IsTree e.visit e.now id s kept)
            (λ e s kept. missing_kept IsTree 404 "directory not found" e s kept)
            (λ affected s kept. kept))

  create_below-keeps :
      (req : CreateDirectoryRequest) (parent : Directory) (s : DirMap)
      → IsTree s
      → lookup parent.id s ≡ some (directory parent)
      → IsTree (create_below uuid_parse (memory_driver e) req parent s).1
  create_below-keeps req parent s tree entry =
      resume_kept IsTree
        (Write.create_directory e.new_id e.now e.later (requested req (some parent.id)) s) _ _
        (create_directory-IsTree e.new_id e.now e.later (requested req (some parent.id)) s tree
          (λ p h. ground arith))
        (λ e s kept. kept) (λ d s kept. kept)

  create_directory-keeps :
      (m : DirMap) → IsTree m → IsTree (create_directory uuid_parse (memory_driver e) r m).1
  unfolding create_directory
  create_directory-keeps m tree =
      resume_kept IsTree (parse_directory_id uuid_parse r.id, m) _ _ tree (λ e s kept. kept)
        (λ id s kept. body_kept IsTree r.create_body (respond 400 binding_error) _ s kept (λ req.
          resume-Ensures IsTree _ (Read.get_directory s id [], s) _ _ (found_directory id s kept)
            (λ e s kept. missing_kept IsTree 400 "parent directory not found" e s kept)
            (create_below-keeps req)))

  apply_update-same :
      (req : UpdateDirectoryRequest) (d : Directory)
      → ((apply_update req d).id ≡ d.id) × ((apply_update req d).parent ≡ d.parent)
  apply_update-same req d = (ground arith, ground arith)

  update_found-keeps :
      (req : UpdateDirectoryRequest) (d : Directory) (s : DirMap)
      → IsTree s
      → lookup d.id s ≡ some (directory d)
      → IsTree
          (attempt
            ((memory_driver e).update_directory (apply_update req d))
            (λ e'. respond 500 (message "failed to update directory"))
            (λ d'. respond 200 (one_directory d'))
            s).1
  update_found-keeps req d s tree entry =
      let (same_id, same_parent) = apply_update-same req d in
      resume_kept IsTree (Write.update_directory e.now (apply_update req d) s) _ _
        (update_directory-IsTree e.now (apply_update req d) d s tree (rw same_id entry) same_parent)
        (λ e s kept. kept) (λ d s kept. kept)

  update_directory-keeps :
      (m : DirMap) → IsTree m → IsTree (update_directory uuid_parse (memory_driver e) r m).1
  unfolding update_directory
  update_directory-keeps m tree =
      resume_kept IsTree (parse_directory_id uuid_parse r.id, m) _ _ tree (λ e s kept. kept)
        (λ id s kept. body_kept IsTree r.update_body (respond 400 binding_error) _ s kept (λ req.
          resume-Ensures IsTree _ (Read.get_directory s id [], s) _ _ (found_directory id s kept)
            (λ e s kept.
              either_kept IsTree (is_not_found e) (respond 404 (message "directory not found"))
                (lift (panic nil_dereference)) s kept kept)
            (update_found-keeps req)))

-- The calls of the in-memory driver that read leave the map as it is.
memory_driver-KeepsReads : (P : DirMap → Type 0) (e : Surroundings) → KeepsReads P (memory_driver e)
memory_driver-KeepsReads P e = record {
  directory_kept = λ id settings m h. h;
  parents_kept = λ id settings m h. h;
  until_kept = λ id until settings m h. h;
  children_kept = λ id settings m h. h;
  roots_kept = λ settings m h. h;
}

module _ (uuid_parse : String → Option DirectoryId) (e : Surroundings) where
  reading_kept :
      (P : DirMap → Type 0) (route : Route) (r : Request) (m : DirMap)
      → is_reading route ≡ true
      → P m
      → P (serve uuid_parse (memory_driver e) route r m).1
  reading_kept P route r m h k =
      serve-KeepsReads P uuid_parse (memory_driver e) (memory_driver-KeepsReads P e) r route m h k

  -- The routes that read, in-memory, leave the map as it is, whatever the request is.
  pub serve_reads :
      (route : Route) (r : Request) (m : DirMap)
      → is_reading route ≡ true
      → (serve uuid_parse (memory_driver e) route r m).1 ≡ m
  serve_reads route r m reading = reading_kept (λ s. s ≡ m) route r m reading refl

  -- One request keeps the tree.
  pub serve-IsTree :
      (route : Route) (r : Request) (m : DirMap)
      → IsTree m
      → IsTree (serve uuid_parse (memory_driver e) route r m).1
  serve-IsTree post_roots r m tree = create_root-keeps uuid_parse e r m tree
  serve-IsTree post_id r m tree = create_directory-keeps uuid_parse e r m tree
  serve-IsTree patch_id r m tree = update_directory-keeps uuid_parse e r m tree
  serve-IsTree delete_id r m tree = delete_directory-keeps uuid_parse e r m tree
  serve-IsTree get_roots r m tree = reading_kept IsTree get_roots r m refl tree
  serve-IsTree get_id r m tree = reading_kept IsTree get_id r m refl tree
  serve-IsTree get_children r m tree = reading_kept IsTree get_children r m refl tree
  serve-IsTree get_parents r m tree = reading_kept IsTree get_parents r m refl tree
  serve-IsTree get_parents_until r m tree = reading_kept IsTree get_parents_until r m refl tree

-- The requests that a server has handled, each with what its calls read from outside.
abbrev pub serve_all :
    (String → Option DirectoryId) → List (Surroundings × Route × Request) → DirMap → DirMap
serve_all uuid_parse [] m = m
serve_all uuid_parse ((e, route, r) ∷ rest) m =
    serve_all uuid_parse rest (serve uuid_parse (memory_driver e) route r m).1

-- The server over the in-memory driver keeps the tree through any sequence of requests, whatever their
-- routes, bodies and ids are and however each of them ends: a refused request, an error or a panic.
pub serve_all-IsTree :
    (uuid_parse : String → Option DirectoryId) (requests : List (Surroundings × Route × Request))
    (m : DirMap)
    → IsTree m
    → IsTree (serve_all uuid_parse requests m)
serve_all-IsTree uuid_parse [] m tree = tree
serve_all-IsTree uuid_parse ((e, route, r) ∷ rest) m tree =
    serve_all-IsTree uuid_parse rest (serve uuid_parse (memory_driver e) route r m).1
      (serve-IsTree uuid_parse e route r m tree)
