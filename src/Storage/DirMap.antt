-- ===== src/Storage/DirMap.antt =====
-- The `sync.Map` of the in-memory driver (storage/memory/memory.go), as an association list from
-- the key to what its pointer reaches. A map injected by WithDirectoryMap may hold `foreign`
-- values, which are no *v1.Directory.
use fertilesoil.Base.{
  ◌≡◌, Option, none, some, List, [], ◌∷◌, ◌==◌, if◌then◌else◌, is_some, arith, Outcome, ok, err,
  unexpected_type,
}
use fertilesoil.Api.{DirectoryId, Directory}

pub data Stored : Type 0 where
  directory : Directory → Stored
  foreign : Stored

abbrev pub DirMap : Type 0
DirMap = List (DirectoryId × Stored)

-- `m.Load(k)`
abbrev pub lookup : DirectoryId → DirMap → Option Stored
lookup k [] = none
lookup k ((j, v) ∷ m) = if j == k then some v else lookup k m

-- A write to a key that is there.
abbrev pub replace : DirectoryId → Stored → DirMap → DirMap
replace k v [] = []
replace k v ((j, w) ∷ m) = if j == k then (j, v) ∷ m else (j, w) ∷ replace k v m

-- `m.Store(k, v)`
unfoldable pub store : DirectoryId → Stored → DirMap → DirMap
store k v m = if is_some (lookup k m) then replace k v m else (k, v) ∷ m

-- `m.LoadOrStore(k, v)`
unfoldable pub load_or_store : DirectoryId → Stored → DirMap → Stored × DirMap
load_or_store k v m = elim (lookup k m) [ none ↦ (v, (k, v) ∷ m) | some w ↦ (w, m) ]

-- `dir, ok := raw.(*v1.Directory)`
abbrev pub as_directory : Stored → Outcome Directory
as_directory (directory d) = ok d
as_directory foreign = err unexpected_type

-- What is read after a replacement: the new value at its key, if the key is there.
pub lookup-replace :
    (k j : DirectoryId) (v : Stored) (m : DirMap)
    → lookup j (replace k v m)
      ≡ (if j == k then (if is_some (lookup k m) then some v else none) else lookup j m)
lookup-replace k j v [] = ground arith
lookup-replace k j v (e ∷ m) = ground (arith, lookup-replace k j v m)

pub lookup-store :
    (k j : DirectoryId) (v : Stored) (m : DirMap)
    → lookup j (store k v m) ≡ (if j == k then some v else lookup j m)
unfolding store
lookup-store k j v m = ground (arith, lookup-replace k j v m)
