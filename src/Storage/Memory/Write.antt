-- ===== src/Storage/Memory/Write.antt =====
-- CreateRoot, CreateDirectory and UpdateDirectory of the in-memory driver.
use fertilesoil.Base.{
  none, some, [], if◌then◌else◌, is_some, is_none, root_with_parent_directory,
  directory_without_parent, Outcome, ok, err,
}
use fertilesoil.Api.{DirectoryId, Time, Directory}
use fertilesoil.Storage.DirMap.{directory, DirMap, store, load_or_store, as_directory}

-- `if d.Metadata == nil { d.Metadata = &v1.DirectoryMetadata{} }`
abbrev pub default_metadata : Directory → Directory
default_metadata d = record d { metadata = some (elim d.metadata [ none ↦ [] | some m ↦ m ]) }

-- The part that CreateRoot and CreateDirectory share: `t` and `u` are the two readings of the
-- clock.
abbrev pub stamp : DirectoryId → Time → Time → Directory → Directory
stamp new_id t u d = record (default_metadata d) { id = new_id; created_at = t; updated_at = u }

unfoldable pub insert_new :
    DirectoryId → Time → Time → Directory → DirMap → Outcome Directory × DirMap
unfolding load_or_store
insert_new new_id t u d m =
    let (raw, m') = load_or_store new_id (directory (stamp new_id t u d)) m in
    (as_directory raw, m')

unfoldable pub create_root :
    DirectoryId → Time → Time → Directory → DirMap → Outcome Directory × DirMap
create_root new_id t u d m =
    if is_some d.parent then (err root_with_parent_directory, m) else insert_new new_id t u d m

unfoldable pub create_directory :
    DirectoryId → Time → Time → Directory → DirMap → Outcome Directory × DirMap
create_directory new_id t u d m =
    if is_none d.parent then (err directory_without_parent, m) else insert_new new_id t u d m

-- UpdateDirectory; the caller's object, which is changed too, is the result.
unfoldable pub update_directory : Time → Directory → DirMap → Outcome Directory × DirMap
update_directory t d m =
    let d' : Directory = record (default_metadata d) { updated_at = t } in
    (ok d', store d.id (directory d') m)
