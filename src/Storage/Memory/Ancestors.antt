-- ===== src/Storage/Memory/Ancestors.antt =====
-- GetParents and GetParentsUntilAncestor of the in-memory driver. Both loops carry the slices
-- `parentIDs` and `parents`.
use fertilesoil.Base.{
  ℕ, zero, suc, true, false, none, some, List, [], ◌∷◌, ◌++◌, map, ◌==◌, if◌then◌else◌, length,
  directory_not_found, Outcome, ok, err, panic, diverge, nil_dereference,
}
use fertilesoil.Base.Results.{◌>>=◌}
use fertilesoil.Base.Int.{pos, ltb_ℤ}
use fertilesoil.Api.{DirectoryId, Directory}
use fertilesoil.Storage.Options.{Setting, Options, build_options, get_page_offset}
use fertilesoil.Storage.Paging.{slice, page_limit}
use fertilesoil.Storage.DirMap.{DirMap}
use fertilesoil.Storage.SortSlice.{sort_at}
use fertilesoil.Storage.Memory.Read.{get_directory}

-- `if len(parentIDs) != 0 { parents = append(parents, dir) }`
abbrev pub append_parent : List DirectoryId → List Directory → Directory → List Directory
append_parent [] parents dir = parents
append_parent (p ∷ ps) parents dir = parents ++ dir ∷ []

-- The loop of GetParents.
unfoldable pub climb :
    ℕ
    → DirMap
    → List Setting
    → DirectoryId
    → List DirectoryId
    → List Directory
    → Outcome (List DirectoryId × List Directory)
climb zero m settings id ids parents = diverge
climb (suc fuel) m settings id ids parents = do
  dir ← get_directory m id settings
  elim dir.parent [
    | none ↦ ok (ids, append_parent ids parents dir)
    | some p ↦ climb fuel m settings p (ids ++ p ∷ []) (append_parent ids parents dir)
  ]

-- The end of both calls: `parentIDs` is sorted by a `less` that reads `parents`, and cut.
unfoldable pub finish_parents :
    Options → List DirectoryId × List Directory → Outcome (List DirectoryId)
finish_parents opts (ids, parents) =
    let sorted = sort_at (map (λ (d : Directory). d.created_at) parents) ids in
    if ltb_ℤ (pos (length parents)) (get_page_offset opts)
    then ok []
    else slice sorted (get_page_offset opts) (page_limit opts sorted)

unfoldable pub get_parents : DirMap → DirectoryId → List Setting → Outcome (List DirectoryId)
get_parents m id settings =
    climb (suc (length m)) m settings id [] [] >>= finish_parents (build_options settings)

-- The loop of GetParentsUntilAncestor.
unfoldable pub climb_until :
    ℕ
    → DirMap
    → List Setting
    → Directory
    → DirectoryId
    → DirectoryId
    → List DirectoryId
    → List Directory
    → Outcome (List DirectoryId × List Directory)
climb_until zero m settings top ancestor child ids parents = diverge
climb_until (suc fuel) m settings top ancestor child ids parents = do
  dir ← get_directory m child settings
  let seen = append_parent ids parents dir
  elim dir.parent [
    | none ↦ if dir.id == ancestor then panic nil_dereference else err directory_not_found
    | some p ↦ elim (p == ancestor) [
      | true ↦ ok (ids ++ p ∷ [], seen ++ top ∷ [])
      | false ↦ climb_until fuel m settings top ancestor p (ids ++ p ∷ []) seen
    ]
  ]

unfoldable pub get_parents_until_ancestor :
    DirMap → DirectoryId → DirectoryId → List Setting → Outcome (List DirectoryId)
get_parents_until_ancestor m child ancestor settings = do
  top ← get_directory m ancestor settings
  found ← climb_until (suc (length m)) m settings top ancestor child [] []
  finish_parents (build_options settings) found
