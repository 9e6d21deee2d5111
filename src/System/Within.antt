-- ===== src/System/Within.antt =====
-- The subtree of a directory told by the parents of the directories (storage/memory/memory.go).
use fertilesoil.Base.{
  ◌≡◌, ◌↔◌, true, ◌||◌, none, some, is_some, [], ◌∷◌, ◌==◌, ==_iff, ==_self, arith, Bool-cases,
  Option-cases, inl, inr, subst, sym,
}
use fertilesoil.Api.{DirectoryId, Directory}
use fertilesoil.Storage.DirMap.{Stored, directory, foreign, DirMap, lookup}
use fertilesoil.Storage.Memory.Tree.{IsTree, rank-parent, lookup-IsTree}
use fertilesoil.App.SqlStorage.{Rows, find_row}
use fertilesoil.App.Once.{is_deleted_row}
use fertilesoil.System.Tracker.{view}
use fertilesoil.System.Subtree.{in_subtree, parent_passes, subtree, subtree-in}

-- The directory is the base directory, or its parent is within the subtree of the base directory.
pub data Within (base : DirectoryId) (m : DirMap) : DirectoryId → Type 0 where
  itself : is_some (lookup base m) ≡ true → Within base m base
  below :
      {x p : DirectoryId} {d : Directory}
      → lookup x m ≡ some (directory d)
      → d.parent ≡ some p
      → Within base m p
      → Within base m x

-- A new entry does not change what is within.
Within-cons :
    (base k : DirectoryId) (v : Stored) (m : DirMap) (x : DirectoryId)
    → lookup k m ≡ none
    → Within base m x
    → Within base ((k, v) ∷ m) x
Within-cons base k v m x new (itself there) = itself (ground arith)
Within-cons base k v m x new (below {p = p} {d = d} found child rest) =
    below {d = d} (ground arith) child (Within-cons base k v m p new rest)

Within-of :
    (base : DirectoryId) (m : DirMap) (x : DirectoryId)
    → IsTree m
    → in_subtree base m x ≡ true
    → Within base m x
Within-of base [] x tree h = absurd (cc)
Within-of base ((k, foreign) ∷ m) x tree h = absurd tree
Within-of base ((k, directory d) ∷ m) x (same, new, parent, tree) h = elim (Bool-cases (k == x)) [
  | inr other ↦ Within-cons base k (directory d) m x new (Within-of base m x tree (ground arith))
  | inl here ↦ elim (Bool-cases (x == base)) [
    | inl at_base ↦
        subst (Within base ((k, directory d) ∷ m)) (sym ((==_iff x base).0 at_base))
          (itself (ground arith))
    | inr off ↦ elim (Option-cases d.parent) [
      | inl root ↦ absurd (ground arith)
      | inr (p, child) ↦
          below {d = d} (ground arith) child
            (Within-cons base k (directory d) m p new (Within-of base m p tree (ground arith)))
    ]
  ]
]

-- An entry is in the subtree by its parent in the whole map.
pub in_subtree-parent :
    (base : DirectoryId) (m : DirMap) (x : DirectoryId) (d : Directory)
    → IsTree m
    → lookup x m ≡ some (directory d)
    → in_subtree base m x ≡ (x == base || parent_passes (in_subtree base m) (directory d))
in_subtree-parent base [] x d tree found = absurd (cc)
in_subtree-parent base ((k, foreign) ∷ m) x d tree found = absurd tree
in_subtree-parent base ((k, directory c) ∷ m) x d (same, new, parent, tree) found =
    elim (Option-cases d.parent) [
      | inl root ↦ elim (Bool-cases (k == x)) [
        | inl here ↦ ground arith
        | inr there ↦ ground (arith, in_subtree-parent base m x d tree)
      ]
      | inr (p, child) ↦ elim (Bool-cases (k == x)) [
        | inl here ↦ ground (arith, parent p)
        | inr there ↦
            let up = rank-parent m x d p tree (ground arith) child in
            ground (arith, in_subtree-parent base m x d tree (ground arith), up)
      ]
    ]

in_subtree-of :
    (base : DirectoryId) (m : DirMap) (x : DirectoryId)
    → IsTree m
    → Within base m x
    → in_subtree base m x ≡ true
in_subtree-of base m x tree (itself there) = elim (Option-cases (lookup base m)) [
  | inl missing ↦ absurd (ground arith)
  | inr (v, found) ↦
      let (d, is_d, same) = lookup-IsTree m base tree found in
      ground (arith, in_subtree-parent base m base d tree (ground arith), ==_self base)
]
in_subtree-of base m x tree (below {p = p} {d = d} found child rest) =
    ground (arith, in_subtree-parent base m x d tree found, in_subtree-of base m p tree rest)

-- The ids of the table are those of the subtree, and a row is marked as deleted when its directory is.
abbrev pub Mirrors : DirectoryId → DirMap → Rows → Type 0
Mirrors base m rows =
    (x : DirectoryId)
    → ((is_some (find_row x rows) ≡ true) ↔ Within base m x)
      × ((d : Directory)
          → lookup x m ≡ some (directory d)
          → is_some (find_row x rows) ≡ true
          → is_deleted_row x rows ≡ is_some d.deleted_at)

pub subtree-Mirrors :
    (base : DirectoryId) (m : DirMap) (rows : Rows)
    → IsTree m
    → ((x : DirectoryId) → view rows x ≡ subtree base m x)
    → Mirrors base m rows
subtree-Mirrors base m rows tree shown x = (
  (
    λ row. Within-of base m x tree (ground (arith, shown x, subtree-in base m x tree)),
    λ within. ground (arith, shown x, subtree-in base m x tree, in_subtree-of base m x tree within),
  ),
  λ d found row. ground (arith, shown x),
)
