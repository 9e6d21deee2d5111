-- ===== src/Storage/Memory/Writes.antt =====
-- What the writing calls of the in-memory driver keep, and what is read after them.
use fertilesoil.Base.{
  ◌≡◌, refl, true, false, none, some, List, ◌∷◌, ◌==◌, if◌then◌else◌, is_some, is_none, ok, arith,
  Bool-cases, Option-cases, inl, inr,
}
use fertilesoil.Api.{DirectoryId, Time, Directory}
use fertilesoil.Storage.Options.{Setting}
use fertilesoil.Storage.DirMap.{Stored, directory, DirMap, lookup, store, load_or_store}
use fertilesoil.Storage.Memory.Write.{
  stamp, insert_new, create_root, create_directory, update_directory,
}
use fertilesoil.Storage.Memory.Read.{get_directory}
use fertilesoil.Storage.Memory.Tree.{IsTree, HasParent, lookup-IsTree, replace-IsTree}

module _ (new_id : DirectoryId) (t u : Time) (d : Directory) (m : DirMap) where
  -- With an id that is not in use, LoadOrStore stores the new directory.
  pub insert_new_fresh :
      lookup new_id m ≡ none
      → insert_new new_id t u d m
        ≡ (ok (stamp new_id t u d), (new_id, directory (stamp new_id t u d)) ∷ m)
  unfolding insert_new load_or_store
  insert_new_fresh fresh = ground arith

  insert_new_taken : {v : Stored} → lookup new_id m ≡ some v → (insert_new new_id t u d m).1 ≡ m
  unfolding insert_new load_or_store
  insert_new_taken taken = ground arith

  insert_new-IsTree : IsTree m → HasParent d m → IsTree (insert_new new_id t u d m).1
  insert_new-IsTree tree parent = elim (Option-cases (lookup new_id m)) [
    | inl fresh ↦ rw (insert_new_fresh fresh) (refl, fresh, parent, tree)
    | inr (v, taken) ↦ rw (insert_new_taken taken) tree
  ]

  -- A created root keeps the invariant, whatever the new id is.
  pub create_root-IsTree : IsTree m → IsTree (create_root new_id t u d m).1
  unfolding create_root
  create_root-IsTree tree = elim (Bool-cases (is_some d.parent)) [
    | inl child ↦ rw child tree
    | inr root ↦ rw root (insert_new-IsTree tree (λ p h. ground arith))
  ]

  -- So does a directory created below a parent that is in the map.
  pub create_directory-IsTree :
      IsTree m → HasParent d m → IsTree (create_directory new_id t u d m).1
  unfolding create_directory
  create_directory-IsTree tree parent = elim (Bool-cases (is_none d.parent)) [
    | inl root ↦ rw root tree
    | inr child ↦ rw child (insert_new-IsTree tree parent)
  ]

  pub create_directory_fresh :
      is_none d.parent ≡ false
      → lookup new_id m ≡ none
      → (create_directory new_id t u d m).0 ≡ ok (stamp new_id t u d)
  unfolding create_directory
  create_directory_fresh child fresh = rw (child, insert_new_fresh fresh) refl

  -- A directory created under an id that was not in use is what GetDirectory then finds, with the
  -- new id and times; every other id gives what it gave before.
  pub get_directory-create_directory :
      (p : DirectoryId) (id : DirectoryId) (settings : List Setting)
      → d.parent ≡ some p
      → d.deleted_at ≡ none
      → lookup new_id m ≡ none
      → get_directory (create_directory new_id t u d m).1 id settings
        ≡ (if new_id == id then ok (stamp new_id t u d) else get_directory m id settings)
  unfolding create_directory get_directory
  get_directory-create_directory p id settings child live fresh =
      let some_parent : is_none d.parent ≡ false = ground arith in
      rw some_parent (rw (insert_new_fresh fresh) (ground arith))

-- Storing an object again keeps the invariant, if its parent is what the map has.
pub update_directory-IsTree :
    (t : Time) (d c : Directory) (m : DirMap)
    → IsTree m
    → lookup d.id m ≡ some (directory c)
    → d.parent ≡ c.parent
    → IsTree (update_directory t d m).1
unfolding update_directory store
update_directory-IsTree t d c m tree found same =
    let (e, is_e, id_e) = lookup-IsTree m d.id tree found in
    let there : is_some (lookup d.id m) ≡ true = ground arith in
    rw there (replace-IsTree m d.id c _ tree found (ground arith) same)
