-- ===== src/Tests/Memory.antt =====
-- The theorems on the in-memory driver, at a root with a child and a grandchild.
use fertilesoil.Base.{
  ℕ, ◌≡◌, refl, some, List, [], ◌∷◌, map, take, SameItems, select, ok, arith, false,
}
use fertilesoil.Base.Int.{pos}
use fertilesoil.Api.{Directory}
use fertilesoil.Storage.Options.{Options, build_options, get_page, get_page_size}
use fertilesoil.Storage.Paging.{copy_page}
use fertilesoil.Storage.Paging.Laws.{window}
use fertilesoil.Storage.Paging.Pages.{read_pages, read_pages-all}
use fertilesoil.Storage.Paging.Overflow.{OffsetOverflows, Panics, copy_page_overflow}
use fertilesoil.Storage.Memory.Read.{get_directory, list_roots}
use fertilesoil.Storage.Memory.Descendants.{get_descendants, get_children}
use fertilesoil.Storage.Memory.Delete.{delete_directory}
use fertilesoil.Storage.Memory.Write.{create_directory, stamp}
use fertilesoil.Storage.Memory.Tree.{IsTree, directories}
use fertilesoil.Storage.Memory.Writes.{get_directory-create_directory}
use fertilesoil.Storage.Memory.Listing.{IsSorted, is_listed_root, root_listing, list_roots_pages}
use fertilesoil.Storage.Memory.Children.{is_listed_child, get_children_pages, get_descendants_ends}
use fertilesoil.Storage.Memory.Deletion.{mark_all}
use fertilesoil.Storage.Memory.Deleted.{delete_directory_marks}
use fertilesoil.Tests.{time_at, plain, child_dir, three, three-IsTree, plain_page, plain_end}

get_children_pages_example :
    (listing : List Directory) × SameItems listing
      (select (is_listed_child three (build_options []) 1) (directories three))
    × IsSorted listing
    × (get_children (λ m. m) three 1 []
        ≡ ok (map (λ (d : Directory). d.id) (window (build_options []) listing)))
get_children_pages_example =
    get_children_pages (λ m. m) three (λ p. refl) three-IsTree 1 [] (omega arith) plain_page
      plain_end

get_descendants_ends_example :
    (listing : List Directory) × (get_descendants (λ m. m) three 1 (build_options []) ≡ ok listing)
    × SameItems listing (select (is_listed_child three (build_options []) 1) (directories three))
get_descendants_ends_example =
    get_descendants_ends (λ m. m) three (λ p. refl) three-IsTree 1 (build_options [])

delete_directory_marks_example :
    (listing : List Directory) × SameItems listing
      (select (is_listed_child three (build_options []) 2) (directories three))
    × IsSorted listing
    × (affected : List Directory) × (delete_directory (λ m. m) (time_at 50) 2 three
        ≡ (ok affected, mark_all (time_at 50) (2 ∷ map (λ d. d.id) (take 10 listing)) three))
    × (map (λ d. d.id) affected ≡ 2 ∷ map (λ d. d.id) (take 10 listing))
    × IsTree (mark_all (time_at 50) (2 ∷ map (λ d. d.id) (take 10 listing)) three)
delete_directory_marks_example =
    delete_directory_marks (λ m. m) (time_at 50) 2 three child_dir 1 (λ p. refl) three-IsTree
      (omega arith) refl refl refl

list_roots_pages_example :
    SameItems
      (root_listing (λ m. m) three (build_options []))
      (select (is_listed_root (build_options [])) (directories three))
    × IsSorted (root_listing (λ m. m) three (build_options []))
    × (list_roots (λ m. m) three []
        ≡ ok (
            map
              (λ (d : Directory). d.id)
              (window (build_options []) (root_listing (λ m. m) three (build_options [])))))
list_roots_pages_example =
    list_roots_pages (λ m. m) three [] (λ p. refl) three-IsTree (omega arith) plain_page plain_end

get_directory-create_directory_example :
    get_directory (create_directory 4 (time_at 40) (time_at 41) (plain 0 (some 2) 0) three).1 4 []
    ≡ ok (stamp 4 (time_at 40) (time_at 41) (plain 0 (some 2) 0))
get_directory-create_directory_example =
    get_directory-create_directory 4 (time_at 40) (time_at 41) (plain 0 (some 2) 0) three 2 4 []
      refl refl refl

-- Two elements a page, the second page.
abbrev second : Options
second = record { with_deleted_directories = false; page = pos 2; page_size = pos 2 }

read_pages-all_example : read_pages {A = ℕ} second (1 ∷ 2 ∷ 3 ∷ []) 2 ≡ ok (1 ∷ 2 ∷ 3 ∷ [])
unfolding get_page get_page_size
read_pages-all_example =
    read_pages-all second (1 ∷ 2 ∷ 3 ∷ []) 2 (omega arith) (omega arith) (omega arith)

-- Two elements a page, page 2 ^ 62 + 1.
abbrev far : Options
far = record {
  with_deleted_directories = false;
  page = pos 4_611_686_018_427_387_905;
  page_size = pos 2;
}

far-OffsetOverflows : OffsetOverflows far
unfolding get_page get_page_size
far-OffsetOverflows = record {
  page_fits = omega arith;
  size_fits = omega arith;
  offset_high = omega arith;
  end_in_word = omega arith;
}

copy_page_overflow_example : Panics (copy_page {A = ℕ} far (1 ∷ 2 ∷ 3 ∷ []))
copy_page_overflow_example = copy_page_overflow far far-OffsetOverflows (1 ∷ 2 ∷ 3 ∷ [])
