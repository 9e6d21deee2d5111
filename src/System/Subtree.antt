-- ===== src/System/Subtree.antt =====
-- The subtree below a base directory in the map of the in-memory driver, and how the writes of the
-- driver (storage/memory/memory.go) change it.
use fertilesoil.Base.{
  ◌≡◌, refl, Bool, true, false, ◌&&◌, ◌||◌, Option, none, some, [], ◌∷◌, ◌==◌, if◌then◌else◌,
  is_some, arith, Bool-cases, Option-cases, inl, inr,
}
use fertilesoil.Api.{DirectoryId, Time, Directory, is_zero, create, update, delete}
use fertilesoil.Storage.DirMap.{Stored, directory, foreign, DirMap, lookup, replace, lookup-replace}
use fertilesoil.Storage.Memory.Tree.{IsTree}
use fertilesoil.Storage.Memory.Delete.{mark_deleted, write_deleted}
use fertilesoil.Messaging.Nats.{get_event}
use fertilesoil.System.Tracker.{View, play}

-- The parent of the entry passes a test.
abbrev pub parent_passes : (DirectoryId → Bool) → Stored → Bool
parent_passes test foreign = false
parent_passes test (directory d) = elim d.parent [ none ↦ false | some p ↦ test p ]

-- The base directory is in its subtree, and so is every directory whose parent is. The parent of an
-- entry is looked for in the older entries.
abbrev pub in_subtree : DirectoryId → DirMap → DirectoryId → Bool
in_subtree base [] x = false
in_subtree base ((k, v) ∷ m) x =
    let below : DirectoryId → Bool = in_subtree base m in
    if k == x then x == base || parent_passes below v else below x

-- What the map says of an entry: nothing of an id that is not there.
abbrev pub state_of : Option Stored → Option Bool
state_of none = none
state_of (some (directory d)) = some (is_some d.deleted_at)
state_of (some foreign) = none

-- For each id of the subtree, whether the directory is deleted.
abbrev pub subtree : DirectoryId → DirMap → View
subtree base m x = if in_subtree base m x then state_of (lookup x m) else none

-- What is in the subtree is in the map.
in_subtree-lookup :
    (base : DirectoryId) (m : DirMap) (x : DirectoryId)
    → IsTree m
    → in_subtree base m x ≡ true
    → is_some (subtree base m x) ≡ true
in_subtree-lookup base [] x tree h = absurd (cc)
in_subtree-lookup base ((k, foreign) ∷ m) x tree h = absurd tree
in_subtree-lookup base ((k, directory d) ∷ m) x (same, new, parent, tree) h =
    ground (arith, in_subtree-lookup base m x tree)

pub subtree-in :
    (base : DirectoryId) (m : DirMap) (x : DirectoryId)
    → IsTree m
    → is_some (subtree base m x) ≡ in_subtree base m x
subtree-in base m x tree = ground (arith, in_subtree-lookup base m x tree)

-- A new directory below a parent in the subtree.
pub subtree-create :
    (base : DirectoryId) (m : DirMap) (d : Directory) (now : Time) (x : DirectoryId)
    → IsTree m
    → is_some (lookup base m) ≡ true
    → lookup d.id m ≡ none
    → d.deleted_at ≡ none
    → subtree base ((d.id, directory d) ∷ m) x ≡ play (get_event create now d) (subtree base m) x
subtree-create base m d now x tree has_base new live = elim (Option-cases d.parent) [
  | inl root ↦ ground arith
  | inr (p, child) ↦ ground (arith, subtree-in base m p tree)
]

parent_passes_ext :
    (test test' : DirectoryId → Bool) (v : Stored)
    → ((x : DirectoryId) → test x ≡ test' x)
    → parent_passes test v ≡ parent_passes test' v
parent_passes_ext test test' foreign same = refl
parent_passes_ext test test' (directory d) same = elim (Option-cases d.parent) [
  | inl root ↦ ground arith
  | inr (p, child) ↦ ground (arith, same p)
]

-- A directory that is stored again with its parent stays where it is.
in_subtree-replace :
    (base : DirectoryId) (m : DirMap) (id : DirectoryId) (d d' : Directory) (x : DirectoryId)
    → lookup id m ≡ some (directory d)
    → d'.parent ≡ d.parent
    → in_subtree base (replace id (directory d') m) x ≡ in_subtree base m x
in_subtree-replace base [] id d d' x found same = refl
in_subtree-replace base ((k, v) ∷ m) id d d' x found same = elim (Bool-cases (k == id)) [
  | inl here ↦ ground arith
  | inr there ↦
      let later = λ (y : DirectoryId). in_subtree-replace base m id d d' y (ground arith) same in
      ground (arith, later x, parent_passes_ext _ _ v later)
]

subtree-replace :
    (base : DirectoryId) (m : DirMap) (id : DirectoryId) (d d' : Directory) (x : DirectoryId)
    → lookup id m ≡ some (directory d)
    → d'.parent ≡ d.parent
    → subtree base (replace id (directory d') m) x ≡ (
        if x == id && is_some (subtree base m x)
        then some (is_some d'.deleted_at)
        else subtree base m x)
subtree-replace base m id d d' x found same =
    ground
      (arith, in_subtree-replace base m id d d' x found same, lookup-replace id x (directory d') m)

-- A deletion at a time that is not the zero time.
pub subtree-delete :
    (base : DirectoryId) (m : DirMap) (id : DirectoryId) (d : Directory) (t now : Time)
    (x : DirectoryId)
    → lookup id m ≡ some (directory d)
    → d.id ≡ id
    → is_zero t ≡ false
    → subtree base (write_deleted id t d m) x
      ≡ play (get_event delete now (mark_deleted t d)) (subtree base m) x
subtree-delete base m id d t now x found same later =
    ground (arith, subtree-replace base m id d (mark_deleted t d) x found refl)

-- An update that leaves the parent and the deletion time.
pub subtree-update :
    (base : DirectoryId) (m : DirMap) (d d' : Directory) (now : Time) (x : DirectoryId)
    → lookup d'.id m ≡ some (directory d)
    → d'.parent ≡ d.parent
    → d'.deleted_at ≡ d.deleted_at
    → subtree base (replace d'.id (directory d') m) x
      ≡ play (get_event update now d') (subtree base m) x
subtree-update base m d d' now x found same kept =
    ground (arith, subtree-replace base m d'.id d d' x found same)
