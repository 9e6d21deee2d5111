-- ===== src/Storage/Memory/Descendants.antt =====
-- getChildren and GetChildren of the in-memory driver: all descendants of a directory.
use fertilesoil.Base.{
  ℕ, zero, suc, ◌&&◌, none, some, List, [], ◌∷◌, ◌++◌, map, ◌==◌, if◌then◌else◌, is_some, length,
  Outcome, ok, diverge,
}
use fertilesoil.Base.Results.{◌>>=◌}
use fertilesoil.Api.{DirectoryId, Directory}
use fertilesoil.Storage.Options.{Setting, Options, build_options}
use fertilesoil.Storage.Paging.{copy_page}
use fertilesoil.Storage.DirMap.{DirMap}
use fertilesoil.Storage.SortSlice.{sort_by_created}
use fertilesoil.Storage.Memory.Read.{collect, is_visible}

-- `childrenByParents[id]`
abbrev pub children_of : DirectoryId → List Directory → List Directory
children_of id [] = []
children_of id (d ∷ ds) =
    let rest = children_of id ds in
    elim d.parent [ none ↦ rest | some p ↦ if p == id then d ∷ rest else rest ]

-- `for i := 0; i < len(children); i++ { children = append(children, ...) }`: the slice is `done`,
-- up to position i, and then `queue`.
unfoldable pub descend :
    ℕ → List Directory → List Directory → List Directory → Outcome (List Directory)
descend fuel linked done [] = ok done
descend zero linked done (c ∷ queue) = diverge
descend (suc fuel) linked done (c ∷ queue) =
    descend fuel linked (done ++ c ∷ []) (queue ++ children_of c.id linked)

module _ (visit : DirMap → DirMap) where
  -- getChildren
  unfoldable pub get_descendants : DirMap → DirectoryId → Options → Outcome (List Directory)
  get_descendants m id opts = do
    linked ← collect (λ d. is_visible opts d && is_some d.parent) (visit m)
    descend (suc (length m)) linked [] (children_of id linked)

  unfoldable pub get_children : DirMap → DirectoryId → List Setting → Outcome (List DirectoryId)
  get_children m id settings = do
    let opts = build_options settings
    children ← get_descendants m id opts
    page ← copy_page opts (sort_by_created children)
    ok (map (λ (d : Directory). d.id) page)
