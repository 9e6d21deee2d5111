-- ===== src/Storage/Memory/Kept.antt =====
-- DeleteDirectory of the in-memory driver, and the invariant of the map.
use fertilesoil.Base.{
  ◌≡◌, ◌⊎◌, refl, none, some, List, [], ◌∷◌, Outcome, ok, err, err_with, panic, diverge,
  Option-cases, inl, inr, arith, directory_not_found, is_some, ◌&&◌, not, Bool-cases,
}
use fertilesoil.Api.{DirectoryId, Time, Directory}
use fertilesoil.Storage.Options.{Setting, build_options}
use fertilesoil.Storage.DirMap.{directory, DirMap, lookup}
use fertilesoil.Storage.Memory.Read.{get_directory}
use fertilesoil.Storage.Memory.Descendants.{get_children}
use fertilesoil.Storage.Memory.Delete.{
  mark_deleted, write_deleted, delete_children, delete_directory,
}
use fertilesoil.Storage.Memory.Tree.{IsTree, lookup-IsTree, replace-IsTree}

-- In a tree GetDirectory ends with the directory of that id, or with "not found".
pub get_directory-cases :
    (m : DirMap) (id : DirectoryId) (settings : List Setting)
    → IsTree m
    → (get_directory m id settings ≡ err directory_not_found)
      ⊎ ((d : Directory) × (get_directory m id settings ≡ ok d)
          × (lookup id m ≡ some (directory d))
          × (d.id ≡ id))
unfolding get_directory
get_directory-cases m id settings tree = elim (Option-cases (lookup id m)) [
  | inl missing ↦ inl (ground arith)
  | inr (v, found) ↦
      let (d, is_d, same) = lookup-IsTree m id tree found in
      elim (Bool-cases
        (is_some d.deleted_at && not (build_options settings).with_deleted_directories)) [
          | inl hidden ↦ inl (ground arith)
          | inr shown ↦ inr (d, ground arith, ground arith, same)
        ]
]

write_deleted-IsTree :
    (m : DirMap) (id : DirectoryId) (t : Time) (d : Directory)
    → IsTree m
    → lookup id m ≡ some (directory d)
    → IsTree (write_deleted id t d m)
write_deleted-IsTree m id t d tree found =
    replace-IsTree m id d (mark_deleted t d) tree found refl refl

delete_children_missing :
    (t : Time) (x : DirectoryId) (xs : List DirectoryId) (m : DirMap)
    → get_directory m x [] ≡ err directory_not_found
    → (delete_children t (x ∷ xs) m).1 ≡ m
unfolding delete_children
delete_children_missing t x xs m missing = ground arith

delete_children_found :
    (t : Time) (x : DirectoryId) (xs : List DirectoryId) (m : DirMap) (d : Directory)
    → get_directory m x [] ≡ ok d
    → (delete_children t (x ∷ xs) m).1 ≡ (delete_children t xs (write_deleted x t d m)).1
unfolding delete_children
delete_children_found t x xs m d found = ground arith

pub delete_children-IsTree :
    (t : Time) (xs : List DirectoryId) (m : DirMap) → IsTree m → IsTree (delete_children t xs m).1
unfolding delete_children
delete_children-IsTree t [] m tree = tree
delete_children-IsTree t (x ∷ xs) m tree = elim (get_directory-cases m x [] tree) [
  | inl missing ↦ rw (delete_children_missing t x xs m missing) tree
  | inr (d, found, entry, same) ↦ rw (delete_children_found t x xs m d found) (
      delete_children-IsTree t xs (write_deleted x t d m) (write_deleted-IsTree m x t d tree entry))
]

module _ (visit : DirMap → DirMap) (t : Time) (id : DirectoryId) (m : DirMap) where
  delete_directory_stops :
      get_directory m id [] ≡ err directory_not_found → (delete_directory visit t id m).1 ≡ m
  unfolding delete_directory
  delete_directory_stops missing = ground arith

  delete_directory_root :
      (d : Directory)
      → get_directory m id [] ≡ ok d
      → d.parent ≡ none
      → (delete_directory visit t id m).1 ≡ m
  unfolding delete_directory
  delete_directory_root d found root = ground arith

  delete_directory_goes :
      (d : Directory) (p : DirectoryId) (r : Outcome (List DirectoryId))
      → get_directory m id [] ≡ ok d
      → d.parent ≡ some p
      → get_children visit m id [] ≡ r
      → ((delete_directory visit t id m).1 ≡ m)
        ⊎ ((ids : List DirectoryId) × ((delete_directory visit t id m).1
              ≡ (delete_children t ids (write_deleted id t d m)).1))
  unfolding delete_directory
  delete_directory_goes d p (ok ids) found child listed = inr (ids, ground arith)
  delete_directory_goes d p (err e) found child listed = inl (ground arith)
  delete_directory_goes d p (err_with ids e) found child listed = inl (ground arith)
  delete_directory_goes d p (panic x) found child listed = inl (ground arith)
  delete_directory_goes d p diverge found child listed = inl (ground arith)

  pub delete_directory-IsTree : IsTree m → IsTree (delete_directory visit t id m).1
  delete_directory-IsTree tree = elim (get_directory-cases m id [] tree) [
    | inl missing ↦ rw (delete_directory_stops missing) tree
    | inr (d, found, entry, same) ↦ elim (Option-cases d.parent) [
      | inl root ↦ rw (delete_directory_root d found root) tree
      | inr (p, child) ↦ elim (delete_directory_goes d p _ found child refl) [
        | inl stopped ↦ rw stopped tree
        | inr (ids, went) ↦ rw went (
            delete_children-IsTree t ids (write_deleted id t d m)
              (write_deleted-IsTree m id t d tree entry))
      ]
    ]
  ]
