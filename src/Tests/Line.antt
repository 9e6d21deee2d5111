-- ===== src/Tests/Line.antt =====
-- The theorems on lines of ancestors, at a root with a child and a grandchild.
use fertilesoil.Base.{
  ◌≡◌, ◌⊎◌, refl, List, [], ◌∷◌, reverse, panic, nil_dereference, ok, err, directory_not_found,
  arith,
}
use fertilesoil.Api.{DirectoryId}
use fertilesoil.Storage.Options.{build_options}
use fertilesoil.Storage.Paging.Laws.{window}
use fertilesoil.Storage.Memory.Read.{get_directory}
use fertilesoil.Storage.Memory.Ancestors.{get_parents, get_parents_until_ancestor}
use fertilesoil.Storage.Memory.Climb.{Lineage, root, child}
use fertilesoil.Storage.Memory.Parents.{get_parents-Lineage, get_parents_ends}
use fertilesoil.Storage.Memory.Until.{
  LineageUntil, get_parents_until_ancestor-LineageUntil, get_parents_until_ancestor_absent, last,
  below, get_parents_until_ancestor_self,
}
use fertilesoil.Tests.{
  root_dir, child_dir, grandchild_dir, three, three-IsTree, plain_page, plain_end,
}

found_root : get_directory three 1 [] ≡ ok root_dir
unfolding get_directory
found_root = refl

found_child : get_directory three 2 [] ≡ ok child_dir
unfolding get_directory
found_child = refl

found_grandchild : get_directory three 3 [] ≡ ok grandchild_dir
unfolding get_directory
found_grandchild = refl

root_line : Lineage three [] 1 [] []
root_line = root found_root refl

child_line : Lineage three [] 2 (1 ∷ []) (root_dir ∷ [])
child_line = child found_child refl found_root root_line

grandchild_line : Lineage three [] 3 (2 ∷ 1 ∷ []) (child_dir ∷ root_dir ∷ [])
grandchild_line = child found_grandchild refl found_child child_line

get_parents-Lineage_example :
    get_parents three 3 [] ≡ ok (window (build_options []) (reverse (2 ∷ 1 ∷ [])))
get_parents-Lineage_example =
    get_parents-Lineage three [] 3 (2 ∷ 1 ∷ []) (child_dir ∷ root_dir ∷ []) three-IsTree
      grandchild_line (omega arith) (omega arith, tt) plain_page plain_end

get_parents_ends_example :
    ((ids : List DirectoryId) × (get_parents three 3 [] ≡ ok ids))
    ⊎ (get_parents three 3 [] ≡ err directory_not_found)
get_parents_ends_example = get_parents_ends three [] 3 three-IsTree plain_page plain_end

get_parents_until_ancestor_absent_example :
    get_parents_until_ancestor three 2 3 [] ≡ err directory_not_found
get_parents_until_ancestor_absent_example =
    get_parents_until_ancestor_absent three [] grandchild_dir 3 2 (1 ∷ []) (root_dir ∷ [])
      three-IsTree found_grandchild child_line (λ e. omega arith) (λ e. omega arith, tt)

get_parents_until_ancestor_self_example :
    get_parents_until_ancestor three 1 1 [] ≡ panic nil_dereference
get_parents_until_ancestor_self_example =
    get_parents_until_ancestor_self three [] 1 root_dir [] [] three-IsTree found_root root_line

until_line : LineageUntil three [] root_dir 1 3 (2 ∷ 1 ∷ []) (child_dir ∷ root_dir ∷ [])
until_line = below found_grandchild refl (λ e. omega arith) found_child (last found_child refl)

get_parents_until_ancestor-LineageUntil_example :
    get_parents_until_ancestor three 3 1 [] ≡ ok (window (build_options []) (reverse (2 ∷ 1 ∷ [])))
get_parents_until_ancestor-LineageUntil_example =
    get_parents_until_ancestor-LineageUntil three [] root_dir 1 3 (2 ∷ 1 ∷ [])
      (child_dir ∷ root_dir ∷ []) three-IsTree found_root until_line (omega arith) (omega arith, tt)
      plain_page plain_end
