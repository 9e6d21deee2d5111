-- ===== src/Storage/Memory/Deletion.antt =====
-- DeleteDirectory of the in-memory driver: which entries it marks as deleted.
use fertilesoil.Base.{
  ◌≡◌, refl, ◌∙◌, Bool, true, false, ◌||◌, Option, none, some, List, [], ◌∷◌, map, ◌==◌,
  if◌then◌else◌, is_none, arith, Option-cases, inl, inr, All, ok,
}
use fertilesoil.Api.{DirectoryId, Time, Directory}
use fertilesoil.Storage.Options.{build_options}
use fertilesoil.Storage.DirMap.{Stored, directory, foreign, DirMap, lookup, replace, lookup-replace}
use fertilesoil.Storage.Memory.Read.{get_directory}
use fertilesoil.Storage.Memory.Delete.{mark_deleted, write_deleted, delete_children}
use fertilesoil.Storage.Memory.Tree.{IsTree, lookup-IsTree, replace-IsTree}

abbrev mark_stored : Time → Stored → Stored
mark_stored t (directory d) = directory (mark_deleted t d)
mark_stored t foreign = foreign

abbrev pub contains : DirectoryId → List DirectoryId → Bool
contains x [] = false
contains x (y ∷ ys) = y == x || contains x ys

-- The map with the deletion time set on the entries with these ids, and on no other.
abbrev pub mark_entry : Time → DirectoryId → DirMap → DirMap
mark_entry t x m = elim (lookup x m) [ none ↦ m | some v ↦ replace x (mark_stored t v) m ]

abbrev pub mark_all : Time → List DirectoryId → DirMap → DirMap
mark_all t [] m = m
mark_all t (x ∷ xs) m = mark_all t xs (mark_entry t x m)

-- What stands under an id after a deletion of the entries `xs`.
abbrev pub marked_lookup : Time → List DirectoryId → DirectoryId → DirMap → Option Stored
marked_lookup t xs x m = elim (lookup x m) [
  | none ↦ none
  | some v ↦ some (if contains x xs then mark_stored t v else v)
]

lookup-mark_entry :
    (t : Time) (x y : DirectoryId) (m : DirMap)
    → lookup y (mark_entry t x m) ≡ marked_lookup t (x ∷ []) y m
lookup-mark_entry t x y m = elim (Option-cases (lookup x m)) [
  | inl missing ↦ ground arith
  | inr (v, found) ↦ ground (arith, lookup-replace x y (mark_stored t v) m)
]

mark_stored_twice : (t : Time) (v : Stored) → mark_stored t (mark_stored t v) ≡ mark_stored t v
mark_stored_twice t (directory d) = refl
mark_stored_twice t foreign = refl

pub lookup-mark_all :
    (t : Time) (xs : List DirectoryId) (y : DirectoryId) (m : DirMap)
    → lookup y (mark_all t xs m) ≡ marked_lookup t xs y m
lookup-mark_all t [] y m = ground arith
lookup-mark_all t (x ∷ xs) y m =
    lookup-mark_all t xs y (mark_entry t x m) ∙ elim (Option-cases (lookup y m)) [
      | inl missing ↦ ground (arith, lookup-mark_entry t x y m)
      | inr (v, found) ↦ ground (arith, lookup-mark_entry t x y m, mark_stored_twice t v)
    ]

pub mark_entry-IsTree :
    (t : Time) (x : DirectoryId) (m : DirMap) → IsTree m → IsTree (mark_entry t x m)
mark_entry-IsTree t x m tree = elim (Option-cases (lookup x m)) [
  | inl missing ↦ let e : mark_entry t x m ≡ m = ground arith in rw e tree
  | inr (v, found) ↦
      let (d, is_d, same) = lookup-IsTree m x tree found in
      let e : mark_entry t x m ≡ replace x (directory (mark_deleted t d)) m = ground arith in
      rw e (replace-IsTree m x d (mark_deleted t d) tree (ground arith) refl refl)
]

pub mark_all-IsTree :
    (t : Time) (xs : List DirectoryId) (m : DirMap) → IsTree m → IsTree (mark_all t xs m)
mark_all-IsTree t [] m tree = tree
mark_all-IsTree t (x ∷ xs) m tree =
    mark_all-IsTree t xs (mark_entry t x m) (mark_entry-IsTree t x m tree)

-- The entry with this id is a directory that is not deleted.
abbrev pub is_live : DirMap → DirectoryId → Bool
is_live m x = elim (lookup x m) [
  | none ↦ false
  | some raw ↦ elim raw [ directory d ↦ is_none d.deleted_at | foreign ↦ false ]
]

pub live-get_directory :
    (m : DirMap) (x : DirectoryId)
    → is_live m x ≡ true
    → (d : Directory) × (get_directory m x [] ≡ ok d) × (lookup x m ≡ some (directory d))
unfolding get_directory build_options
live-get_directory m x live = elim (Option-cases (lookup x m)) [
  | inl missing ↦ absurd (ground arith)
  | inr (directory d, found) ↦ (d, ground arith, ground arith)
  | inr (foreign, found) ↦ absurd (ground arith)
]

pub get_directory-live :
    (m : DirMap) (x : DirectoryId) (d : Directory)
    → get_directory m x [] ≡ ok d
    → is_live m x ≡ true
unfolding get_directory build_options
get_directory-live m x d found = elim (Option-cases (lookup x m)) [
  | inl missing ↦ absurd (ground arith)
  | inr (directory c, entry) ↦ ground arith
  | inr (foreign, entry) ↦ absurd (ground arith)
]

-- Each of the ids once, and none that has been seen before.
abbrev pub Distinct : List DirectoryId → Type 0
Distinct [] = Unit
Distinct (x ∷ xs) = (contains x xs ≡ false) × Distinct xs

pub live_after :
    (t : Time) (x : DirectoryId) (m : DirMap) (ys : List DirectoryId)
    → contains x ys ≡ false
    → All (λ y. is_live m y ≡ true) ys
    → All (λ y. is_live (mark_entry t x m) y ≡ true) ys
live_after t x m [] other live = tt
live_after t x m (y ∷ ys) other (here, live) =
    (ground (arith, lookup-mark_entry t x y m), live_after t x m ys (ground arith) live)

delete_children_step :
    (t : Time) (x : DirectoryId) (xs : List DirectoryId) (m : DirMap) (d : Directory)
    (rest : List Directory) (m' : DirMap)
    → get_directory m x [] ≡ ok d
    → delete_children t xs (write_deleted x t d m) ≡ (ok rest, m')
    → delete_children t (x ∷ xs) m ≡ (ok (mark_deleted t d ∷ rest), m')
unfolding delete_children
delete_children_step t x xs m d rest m' found ih = ground arith

-- A deletion one directory after the other: each is in the map and not deleted when it is marked, and
-- what is returned is the marked directory.
abbrev pub Deletes : Time → List Directory → DirMap → DirMap → Type 0
Deletes t [] m m' = m ≡ m'
Deletes t (a ∷ rest) m m' =
    (d : Directory) × (a ≡ mark_deleted t d)
    × (lookup d.id m ≡ some (directory d))
    × (d.deleted_at ≡ none)
    × Deletes t rest (write_deleted d.id t d m) m'

pub Deletes-step :
    (t : Time) (x : DirectoryId) (d : Directory) (rest : List Directory) (m m' : DirMap)
    → d.id ≡ x
    → lookup x m ≡ some (directory d)
    → is_live m x ≡ true
    → Deletes t rest (mark_entry t x m) m'
    → Deletes t (mark_deleted t d ∷ rest) m m'
Deletes-step t x d rest m m' same found live later =
    let e : mark_entry t x m ≡ write_deleted d.id t d m = ground arith in
    (d, refl, ground arith, ground arith, rw (← e) later)

pub delete_children_lem :
    (t : Time) (xs : List DirectoryId) (m : DirMap)
    → IsTree m
    → Distinct xs
    → All (λ x. is_live m x ≡ true) xs
    → (affected : List Directory) × (delete_children t xs m ≡ (ok affected, mark_all t xs m))
      × (map (λ (d : Directory). d.id) affected ≡ xs)
      × Deletes t affected m (mark_all t xs m)
unfolding delete_children
delete_children_lem t [] m tree distinct live = ([], refl, refl, refl)
delete_children_lem t (x ∷ xs) m tree (new, distinct) (here, live) =
    let (d, found, entry) = live-get_directory m x here in
    let (e, is_e, same) = lookup-IsTree m x tree entry in
    let written : mark_entry t x m ≡ write_deleted x t d m = ground arith in
    let (rest, deleted, ids, chain) =
      delete_children_lem t xs (mark_entry t x m) (mark_entry-IsTree t x m tree) distinct
        (live_after t x m xs new live) in
    (
      mark_deleted t d ∷ rest,
      delete_children_step t x xs m d rest _ found (rw (← written) deleted),
      ground arith,
      Deletes-step t x d rest m _ (ground arith) entry here chain,
    )
