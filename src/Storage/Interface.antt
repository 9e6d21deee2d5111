-- ===== src/Storage/Interface.antt =====
-- DirectoryAdmin (storage/interface.go) over the state `S` of a driver, and the in-memory driver as
-- one. An object that a call changes through its pointer is part of the result.
use fertilesoil.Base.{List, Action}
use fertilesoil.Api.{DirectoryId, Time, Directory}
use fertilesoil.Storage.Options.{Setting}
use fertilesoil.Storage.DirMap.{DirMap}
use fertilesoil.Storage.Memory.Write
use fertilesoil.Storage.Memory.Read
use fertilesoil.Storage.Memory.Descendants
use fertilesoil.Storage.Memory.Ancestors
use fertilesoil.Storage.Memory.Delete

pub record DirectoryAdmin (S : Type 0) : Type 0 where
  pub get_directory : DirectoryId → List Setting → Action S Directory
  pub get_parents : DirectoryId → List Setting → Action S (List DirectoryId)
  pub get_parents_until_ancestor :
      DirectoryId → DirectoryId → List Setting → Action S (List DirectoryId)
  pub get_children : DirectoryId → List Setting → Action S (List DirectoryId)
  pub list_roots : List Setting → Action S (List DirectoryId)
  pub create_directory : Directory → Action S Directory
  pub update_directory : Directory → Action S Directory
  pub delete_directory : DirectoryId → Action S (List Directory)
  pub create_root : Directory → Action S Directory

-- What one call of the in-memory driver reads from outside: the order of a `Range`, the new UUID
-- and two readings of the clock.
pub record Surroundings : Type 0 where
  pub visit : DirMap → DirMap
  pub new_id : DirectoryId
  pub now : Time
  pub later : Time

abbrev pub memory_driver : Surroundings → DirectoryAdmin DirMap
memory_driver e = record {
  get_directory = λ id settings m. (Read.get_directory m id settings, m);
  get_parents = λ id settings m. (Ancestors.get_parents m id settings, m);
  get_parents_until_ancestor = λ child ancestor settings m.
      (Ancestors.get_parents_until_ancestor m child ancestor settings, m);
  get_children = λ id settings m. (Descendants.get_children e.visit m id settings, m);
  list_roots = λ settings m. (Read.list_roots e.visit m settings, m);
  create_directory = Write.create_directory e.new_id e.now e.later;
  update_directory = Write.update_directory e.now;
  delete_directory = Delete.delete_directory e.visit e.now;
  create_root = Write.create_root e.new_id e.now e.later;
}

-- A driver beside another part of the state, which its calls leave alone.
abbrev pub on_first : {M N A : Type 0} → Action M A → Action (M × N) A
on_first f (m, rest) = let (r, m') = f m in (r, (m', rest))

abbrev pub beside : {M N : Type 0} → DirectoryAdmin M → DirectoryAdmin (M × N)
beside t = record {
  get_directory = λ id settings. on_first (t.get_directory id settings);
  get_parents = λ id settings. on_first (t.get_parents id settings);
  get_parents_until_ancestor =
      λ child ancestor settings. on_first (t.get_parents_until_ancestor child ancestor settings);
  get_children = λ id settings. on_first (t.get_children id settings);
  list_roots = λ settings. on_first (t.list_roots settings);
  create_directory = λ d. on_first (t.create_directory d);
  update_directory = λ d. on_first (t.update_directory d);
  delete_directory = λ id. on_first (t.delete_directory id);
  create_root = λ d. on_first (t.create_root d);
}
