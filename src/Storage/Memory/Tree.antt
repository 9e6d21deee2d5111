-- ===== src/Storage/Memory/Tree.antt =====
-- The invariant of the map of the in-memory driver: it holds directories only, each under its own
-- id, no id twice, and every parent is there and older than its children. An entry counts as
-- older when it stands further down the list: a new one is put on top.
use fertilesoil.Base.{
  ℕ, suc, ◌≤◌, ◌<◌, ◌∙◌, ◌≡◌, refl, Bool, true, Option, none, some, List, [], ◌∷◌, ◌==◌,
  if◌then◌else◌, is_some, length, count, All, ◌&&◌, arith, Bool-cases, inl, inr,
}
use fertilesoil.Api.{DirectoryId, Directory}
use fertilesoil.Storage.DirMap.{Stored, directory, foreign, DirMap, lookup, replace, lookup-replace}

-- The parent, if there is one, is in the map.
abbrev pub HasParent : Directory → DirMap → Type 0
HasParent d m = (p : DirectoryId) → d.parent ≡ some p → is_some (lookup p m) ≡ true

abbrev pub IsTree : DirMap → Type 0
IsTree [] = Unit
IsTree ((k, foreign) ∷ m) = ⊥
IsTree ((k, directory d) ∷ m) = (d.id ≡ k) × (lookup k m ≡ none) × HasParent d m × IsTree m

-- The number of entries from the one with this id down to the end; 0 if there is none.
abbrev pub rank : DirMap → DirectoryId → ℕ
rank [] id = 0
rank ((k, v) ∷ m) id = if k == id then suc (length m) else rank m id

pub rank-le : (m : DirMap) (id : DirectoryId) → rank m id ≤ length m
rank-le [] id = omega arith
rank-le ((k, v) ∷ m) id = ground (arith, rank-le m id)

-- What is found in a tree is a directory with the id that was asked for.
pub lookup-IsTree :
    (m : DirMap) (id : DirectoryId) {v : Stored}
    → IsTree m
    → lookup id m ≡ some v
    → (d : Directory) × (v ≡ directory d) × (d.id ≡ id)
lookup-IsTree [] id t e = absurd (cc)
lookup-IsTree ((k, foreign) ∷ m) id t e = absurd t
lookup-IsTree ((k, directory d) ∷ m) id t e = elim (Bool-cases (k == id)) [
  | inl same ↦ (d, ground arith, ground (arith))
  | inr differ ↦ lookup-IsTree m id t.3 (ground arith)
]

-- A parent is in the map, below its child.
pub rank-parent :
    (m : DirMap) (id : DirectoryId) (d : Directory) (p : DirectoryId)
    → IsTree m
    → lookup id m ≡ some (directory d)
    → d.parent ≡ some p
    → (rank m p < rank m id) × (is_some (lookup p m) ≡ true)
rank-parent [] id d p t e h = absurd (cc)
rank-parent ((k, foreign) ∷ m) id d p t e h = absurd t
rank-parent ((k, directory c) ∷ m) id d p t e h =
    ground (arith, t.2 p, rank-parent m id d p t.3, rank-le m p)

is_some-lookup-replace :
    (k j : DirectoryId) (v : Stored) (m : DirMap)
    → is_some (lookup j (replace k v m)) ≡ is_some (lookup j m)
is_some-lookup-replace k j v m = ground (arith, lookup-replace k j v m)

-- A change of a directory that keeps its id and its parent keeps the tree.
pub replace-IsTree :
    (m : DirMap) (id : DirectoryId) (d d' : Directory)
    → IsTree m
    → lookup id m ≡ some (directory d)
    → d'.id ≡ d.id
    → d'.parent ≡ d.parent
    → IsTree (replace id (directory d') m)
replace-IsTree [] id d d' t e same_id same_parent = tt
replace-IsTree ((k, foreign) ∷ m) id d d' t e same_id same_parent = absurd t
replace-IsTree ((k, directory c) ∷ m) id d d' t e same_id same_parent =
    elim (Bool-cases (k == id)) [
      | inl same ↦
          let found : c ≡ d = ground arith in
          rw same (ground (arith, t.0), t.1, λ p h. t.2 p (ground arith), t.3)
      | inr differ ↦ rw differ (
        t.0,
        ground (arith, lookup-replace id k (directory d') m),
        λ p h. is_some-lookup-replace id p (directory d') m ∙ t.2 p h,
        replace-IsTree m id d d' t.3 (ground arith) same_id same_parent,
      )
    ]

-- The directories among the entries of a map.
abbrev pub directories : DirMap → List Directory
directories [] = []
directories ((k, directory d) ∷ m) = d ∷ directories m
directories ((k, foreign) ∷ m) = directories m

-- What a lookup gives, if it is a directory that passes a test.
abbrev pub lookup_if : (Directory → Bool) → DirectoryId → DirMap → Option Directory
lookup_if t x m = elim (lookup x m) [
  | none ↦ none
  | some raw ↦ elim raw [ directory d ↦ if t d then some d else none | foreign ↦ none ]
]

-- In a tree the id of a test is found by a lookup: once or not at all.
pub count-lookup_if :
    (t : Directory → Bool) (x : DirectoryId) (m : DirMap)
    → IsTree m
    → count (λ d. d.id == x && t d) (directories m) ≡ (if is_some (lookup_if t x m) then 1 else 0)
count-lookup_if t x [] tree = refl
count-lookup_if t x ((k, foreign) ∷ m) tree = absurd tree
count-lookup_if t x ((k, directory d) ∷ m) (same, fresh, parent, tree) =
    ground (arith, count-lookup_if t x m tree)

-- In a tree every directory is what a lookup of its id gives.
entries_from :
    (m all : DirMap)
    → IsTree m
    → ((x : DirectoryId) (v : Stored) → lookup x m ≡ some v → lookup x all ≡ some v)
    → All (λ (d : Directory). lookup d.id all ≡ some (directory d)) (directories m)
entries_from [] all tree sub = tt
entries_from ((k, foreign) ∷ m) all tree sub = absurd tree
entries_from ((k, directory d) ∷ m) all (same, fresh, parent, tree) sub = (
  sub d.id (directory d) (ground arith),
  entries_from m all tree (λ x v found. sub x v (ground arith)),
)

pub directories-lookup :
    (m : DirMap)
    → IsTree m
    → All (λ (d : Directory). lookup d.id m ≡ some (directory d)) (directories m)
directories-lookup m tree = entries_from m m tree (λ x v found. found)
