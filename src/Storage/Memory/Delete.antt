-- ===== src/Storage/Memory/Delete.antt =====
-- DeleteDirectory of the in-memory driver. The objects in the map are changed through their
-- pointers, so the deletion times stay when a later step fails.
use fertilesoil.Base.{
  none, some, List, [], ◌∷◌, directory_not_found, wrap, Outcome, err, err_with, String, Action,
  pure, raise, modify, ◌>>=◌, ◌>>◌,
}
use fertilesoil.Api.{DirectoryId, Time, Directory}
use fertilesoil.Storage.DirMap.{directory, DirMap, replace}
use fertilesoil.Storage.Memory.Read.{get_directory}
use fertilesoil.Storage.Memory.Descendants.{get_children}

-- `fmt.Errorf("...: %w", err)` on the error of a call.
abbrev pub wrap_error : {A : Type 0} → String → Outcome A → Outcome A
wrap_error text (err e) = err (wrap text e)
wrap_error text (err_with a e) = err (wrap text e)
wrap_error text r = r

-- `dir.DeletedAt = &deletedTime`
abbrev pub mark_deleted : Time → Directory → Directory
mark_deleted t d = record d { deleted_at = some t }

abbrev pub write_deleted : DirectoryId → Time → Directory → DirMap → DirMap
write_deleted id t d = replace id (directory (mark_deleted t d))

-- `for i, childID := range children`
unfoldable pub delete_children : Time → List DirectoryId → Action DirMap (List Directory)
delete_children t [] = pure []
delete_children t (id ∷ ids) = do
  child ← λ m. (wrap_error "error getting child" (get_directory m id []), m)
  modify (write_deleted id t child)
  rest ← delete_children t ids
  pure (mark_deleted t child ∷ rest)

unfoldable pub delete_directory :
    (DirMap → DirMap) → Time → DirectoryId → Action DirMap (List Directory)
delete_directory visit t id = do
  dir ← λ m. (get_directory m id [], m)
  elim dir.parent [
    | none ↦ raise directory_not_found
    | some p ↦ do
      children ← λ m. (wrap_error "error getting children" (get_children visit m id []), m)
      modify (write_deleted id t dir)
      rest ← delete_children t children
      pure (mark_deleted t dir ∷ rest)
  ]
