-- ===== src/Storage/Memory/Read.antt =====
-- GetDirectory and ListRoots of the in-memory driver.
use fertilesoil.Base.{
  Bool, not, ◌&&◌, ◌||◌, none, some, List, [], ◌∷◌, map, if◌then◌else◌, is_some, is_none,
  directory_not_found, Outcome, ok, err,
}
use fertilesoil.Base.Results.{◌>>=◌}
use fertilesoil.Api.{DirectoryId, Directory}
use fertilesoil.Storage.Options.{Setting, Options, build_options}
use fertilesoil.Storage.Paging.{copy_page}
use fertilesoil.Storage.DirMap.{Stored, DirMap, lookup, as_directory}
use fertilesoil.Storage.SortSlice.{sort_by_created}

unfoldable pub get_directory : DirMap → DirectoryId → List Setting → Outcome Directory
get_directory m id settings = elim (lookup id m) [
  | none ↦ err directory_not_found
  | some raw ↦ do
    dir ← as_directory raw
    let hidden = is_some dir.deleted_at && not (build_options settings).with_deleted_directories
    if hidden then err directory_not_found else ok dir
]

-- A `Range` that gathers the directories that pass a test, and stops at a foreign value.
unfoldable pub collect : (Directory → Bool) → List (DirectoryId × Stored) → Outcome (List Directory)
collect test [] = ok []
collect test ((k, raw) ∷ entries) = do
  dir ← as_directory raw
  rest ← collect test entries
  ok (if test dir then dir ∷ rest else rest)

abbrev pub is_visible : Options → Directory → Bool
is_visible o d = is_none d.deleted_at || o.with_deleted_directories

module _ (visit : DirMap → DirMap) where
  unfoldable pub list_roots : DirMap → List Setting → Outcome (List DirectoryId)
  list_roots m settings = do
    let opts = build_options settings
    roots ← collect (λ d. is_visible opts d && is_none d.parent) (visit m)
    page ← copy_page opts (sort_by_created roots)
    ok (map (λ (d : Directory). d.id) page)
