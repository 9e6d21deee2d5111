-- ===== src/Tests/Crdb.antt =====
-- The theorems on the CockroachDB driver, at the table of a root with a child and a grandchild.
use fertilesoil.Base.{
  ◌≡◌, ◌<◌, ◌+◌, suc, refl, false, none, some, [], ◌∷◌, map, SameItems, select, ok, arith,
}
use fertilesoil.Base.Int.{int_half}
use fertilesoil.Api.{Directory}
use fertilesoil.Storage.Options.{build_options, get_page, get_page_size}
use fertilesoil.Storage.Paging.Laws.{window, skipped, size_of}
use fertilesoil.Storage.Memory.Delete.{mark_deleted}
use fertilesoil.Storage.Memory.Read.{get_directory}
use fertilesoil.Storage.Memory.Climb.{Lineage, root, child}
use fertilesoil.Storage.Memory.Until.{LineageUntil, last, below}
use fertilesoil.Storage.Memory.Children.{is_listed_child}
use fertilesoil.Storage.Memory.Listing.{is_listed_root}
use fertilesoil.Storage.Memory.Order.{DistinctTimes}
use fertilesoil.Storage.Crdb.Table.{Rows, Db, set_deleted}
use fertilesoil.Storage.Crdb.Driver.{Driver, Surroundings, new_directory_driver, crdb_driver}
use fertilesoil.Storage.Crdb.Driver
use fertilesoil.Storage.Crdb.Entries.{entries}
use fertilesoil.Storage.Crdb.Children.{get_children_listing}
use fertilesoil.Storage.Crdb.Deletion.{is_below, delete_directory_all}
use fertilesoil.Storage.Crdb.Ancestors.{
  get_parents_line, get_parents_until_line, get_parents_until_absent,
}
use fertilesoil.Storage.Crdb.Roots.{list_roots-agrees}
use fertilesoil.Storage.Memory.Read
use fertilesoil.Storage.Crdb.Agreement.{Agrees, refines_memory}
use fertilesoil.Storage.Memory.Write
use fertilesoil.Tests.{
  time_at, plain, root_dir, child_dir, grandchild_dir, three, three-IsTree, plain_page,
}

abbrev rows : Rows
rows = grandchild_dir ∷ child_dir ∷ root_dir ∷ []

abbrev pub db : Db
db = record { rows = rows; follower = []; failing = none }

abbrev driver : Driver
driver = new_directory_driver false false

plain_limit : suc (skipped (build_options []) + size_of (build_options [])) < int_half
unfolding build_options get_page get_page_size
plain_limit = omega arith

found_root : get_directory three 1 [] ≡ ok root_dir
unfolding get_directory
found_root = refl

found_child : get_directory three 2 [] ≡ ok child_dir
unfolding get_directory
found_child = refl

found_grandchild : get_directory three 3 [] ≡ ok grandchild_dir
unfolding get_directory
found_grandchild = refl

asked_root : Driver.get_directory driver 1 [] db ≡ (ok root_dir, db)
unfolding Driver.get_directory build_options
asked_root = refl

root_line : Lineage three [] 1 [] []
root_line = root found_root refl

child_line : Lineage three [] 2 (1 ∷ []) (root_dir ∷ [])
child_line = child found_child refl found_root root_line

grandchild_line : Lineage three [] 3 (2 ∷ 1 ∷ []) (child_dir ∷ root_dir ∷ [])
grandchild_line = child found_grandchild refl found_child child_line

until_line : LineageUntil three [] root_dir 1 3 (2 ∷ 1 ∷ []) (child_dir ∷ root_dir ∷ [])
until_line = below found_grandchild refl (λ e. omega arith) found_child (last found_child refl)

get_children_listing_example :
    (listing : Rows) × SameItems listing
      (select (is_listed_child (entries rows) (build_options []) 1) rows)
    × (Driver.get_children driver (λ ds. ds) 1 [] db
        ≡ (ok (map (λ (d : Directory). d.id) (window (build_options []) listing)), db))
get_children_listing_example =
    get_children_listing driver (λ ds. ds) db 1 [] root_dir refl three-IsTree (λ p. refl) asked_root
      plain_page plain_limit

delete_directory_all_example : Driver.delete_directory driver (λ ds. ds) (time_at 50) 2 db ≡ (
  ok (map (mark_deleted (time_at 50)) (select (is_below rows 2) rows)),
  record db { rows = set_deleted (time_at 50) (is_below rows 2) rows },
)
delete_directory_all_example =
    delete_directory_all driver (λ ds. ds) (time_at 50) db 2 child_dir refl three-IsTree (λ p. refl)
      refl refl

get_parents_line_example :
    Driver.get_parents driver 3 [] db ≡ (ok (window (build_options []) (2 ∷ 1 ∷ [])), db)
get_parents_line_example =
    get_parents_line driver [] db 3 refl three-IsTree plain_page plain_limit (2 ∷ 1 ∷ [])
      (child_dir ∷ root_dir ∷ []) grandchild_line

get_parents_until_line_example :
    Driver.get_parents_until_ancestor driver 3 1 [] db
    ≡ (ok (window (build_options []) (2 ∷ 1 ∷ [])), db)
get_parents_until_line_example =
    get_parents_until_line driver [] db 3 refl three-IsTree plain_page plain_limit root_dir 1
      (2 ∷ 1 ∷ []) (child_dir ∷ root_dir ∷ []) found_root (λ e. omega arith) until_line

get_parents_until_absent_example :
    Driver.get_parents_until_ancestor driver 2 3 [] db ≡ Driver.get_parents driver 2 [] db
get_parents_until_absent_example =
    get_parents_until_absent driver [] db 2 refl three-IsTree plain_page plain_limit 3 (1 ∷ [])
      (root_dir ∷ []) (λ e. omega arith) child_line (λ e. omega arith, tt)

abbrev new_child : Directory
new_child = plain 0 (some 2) 0

abbrev pub surroundings : Surroundings
surroundings = record { scan = λ ds. ds; new_id = 4; now = time_at 40 }

refines_memory_example :
    Agrees
      (Driver.create_root driver 4 (time_at 40) new_child db)
      (Write.create_root 4 (time_at 40) (time_at 40) new_child three)
    × Agrees
        (Driver.create_directory driver 4 (time_at 40) new_child db)
        (Write.create_directory 4 (time_at 40) (time_at 40) new_child three)
    × Agrees
        (Driver.update_directory driver (time_at 40) child_dir db)
        (Write.update_directory (time_at 40) child_dir three)
    × Agrees (Driver.get_directory driver 3 [] db) (get_directory three 3 [], three)
refines_memory_example =
    refines_memory driver (time_at 40) db refl refl 4 new_child child_dir child_dir 3 [] refl
      three-IsTree refl refl refl refl (refl, refl, refl, refl)

plain_window : skipped (build_options []) + size_of (build_options []) < int_half
unfolding build_options get_page get_page_size
plain_window = omega arith

roots-DistinctTimes : DistinctTimes (select (is_listed_root (build_options [])) rows)
roots-DistinctTimes t = ground arith

list_roots-agrees_example :
    Driver.list_roots driver (λ ds. ds) [] db ≡ (Read.list_roots (λ m. m) three [], db)
list_roots-agrees_example =
    list_roots-agrees driver (λ ds. ds) db [] refl plain_page plain_window (λ m. m) three-IsTree
      (omega arith) (λ p. refl) (λ p. refl) roots-DistinctTimes
