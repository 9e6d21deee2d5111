-- ===== src/Storage/Memory/Listing.antt =====
-- What the sort and the pages of ListRoots give.
use fertilesoil.Base.{
  ◌+◌, ◌≤◌, ◌<◌, ◌≡◌, refl, sym, ◌∙◌, Bool, true, false, ◌&&◌, List, [], ◌∷◌, map, reverse_aux,
  is_none, length, arith, count, select, SameItems, count-reverse, count-select,
  length_of_SameItems, ok,
}
use fertilesoil.Base.Int.{int_half}
use fertilesoil.Api.{DirectoryId, Directory}
use fertilesoil.Storage.Options.{Options, Setting, build_options}
use fertilesoil.Storage.Paging.Laws.{page_of, size_of, skipped, window, copy_page_lem}
use fertilesoil.Storage.DirMap.{Stored, directory, foreign, DirMap}
use fertilesoil.Storage.SortSlice.{sink, sort_loop, sort_by_created}
use fertilesoil.Storage.Memory.Read.{collect, is_visible, list_roots}
use fertilesoil.Storage.Memory.Tree.{IsTree, directories}

-- Oldest first.
abbrev pub IsSorted : List Directory → Type 0
IsSorted [] = Unit
IsSorted (d ∷ []) = Unit
IsSorted (d ∷ e ∷ ds) = (d.created_at.instant ≤ e.created_at.instant) × IsSorted (e ∷ ds)

count-sink :
    (p : Directory → Bool) (x : Directory) (ys : List Directory)
    → count p (sink x ys) ≡ count p (x ∷ ys)
unfolding sink
count-sink p x [] = refl
count-sink p x (y ∷ ys) = ground (arith, count-sink p x ys)

count-sort_loop :
    (p : Directory → Bool) (sorted xs : List Directory)
    → count p (sort_loop sorted xs) ≡ count p sorted + count p xs
unfolding sort_loop
count-sort_loop p sorted [] = omega (arith, count-reverse p sorted)
count-sort_loop p sorted (x ∷ xs) =
    ground (arith, count-sort_loop p (sink x sorted) xs, count-sink p x sorted)

pub sort_by_created-SameItems : (ds : List Directory) → SameItems (sort_by_created ds) ds
unfolding sort_by_created
sort_by_created-SameItems ds p = omega (arith, count-sort_loop p [] ds)

-- Youngest first, as the sorted prefix is held.
abbrev Descending : List Directory → Type 0
Descending [] = Unit
Descending (d ∷ []) = Unit
Descending (d ∷ e ∷ ds) = (e.created_at.instant ≤ d.created_at.instant) × Descending (e ∷ ds)

sink-Descending : (x : Directory) (ys : List Directory) → Descending ys → Descending (sink x ys)
unfolding sink
sink-Descending x [] h = tt
sink-Descending x (y ∷ []) h = ground arith
sink-Descending x (y ∷ z ∷ ys) (le, h) = ground (arith, sink-Descending x (z ∷ ys) h)

-- The last of the youngest-first prefix is no younger than the first of what follows it.
abbrev Joins : List Directory → List Directory → Type 0
Joins [] ys = Unit
Joins (x ∷ xs) [] = Unit
Joins (x ∷ xs) (y ∷ ys) = x.created_at.instant ≤ y.created_at.instant

reverse_aux-IsSorted :
    (xs ys : List Directory)
    → Descending xs
    → IsSorted ys
    → Joins xs ys
    → IsSorted (reverse_aux xs ys)
reverse_aux-IsSorted [] ys d s j = s
reverse_aux-IsSorted (x ∷ []) [] d s j = tt
reverse_aux-IsSorted (x ∷ []) (y ∷ ys) d s j = (j, s)
reverse_aux-IsSorted (x ∷ x' ∷ xs) [] d s j = reverse_aux-IsSorted (x' ∷ xs) (x ∷ []) d.1 tt d.0
reverse_aux-IsSorted (x ∷ x' ∷ xs) (y ∷ ys) d s j =
    reverse_aux-IsSorted (x' ∷ xs) (x ∷ y ∷ ys) d.1 (j, s) d.0

sort_loop-IsSorted :
    (sorted xs : List Directory) → Descending sorted → IsSorted (sort_loop sorted xs)
unfolding sort_loop
sort_loop-IsSorted [] [] h = tt
sort_loop-IsSorted (x ∷ sorted) [] h = reverse_aux-IsSorted (x ∷ sorted) [] h tt tt
sort_loop-IsSorted sorted (x ∷ xs) h =
    sort_loop-IsSorted (sink x sorted) xs (sink-Descending x sorted h)

pub sort_by_created-IsSorted : (ds : List Directory) → IsSorted (sort_by_created ds)
unfolding sort_by_created
sort_by_created-IsSorted ds = sort_loop-IsSorted [] ds tt

abbrev is_foreign : DirectoryId × Stored → Bool
is_foreign (k, directory d) = false
is_foreign (k, foreign) = true

-- A test of directories, on entries.
abbrev on_entry : (Directory → Bool) → DirectoryId × Stored → Bool
on_entry p (k, directory d) = p d
on_entry p (k, foreign) = false

count-directories :
    (p : Directory → Bool) (m : DirMap) → count p (directories m) ≡ count (on_entry p) m
count-directories p [] = refl
count-directories p ((k, directory d) ∷ m) = ground (arith, count-directories p m)
count-directories p ((k, foreign) ∷ m) = count-directories p m

no_foreign : (m : DirMap) → IsTree m → count is_foreign m ≡ 0
no_foreign [] t = refl
no_foreign ((k, foreign) ∷ m) t = absurd t
no_foreign ((k, directory d) ∷ m) t = no_foreign m t.3

collect_lem :
    (test : Directory → Bool) (entries : DirMap)
    → count is_foreign entries ≡ 0
    → collect test entries ≡ ok (select test (directories entries))
unfolding collect
collect_lem test [] h = refl
collect_lem test ((k, foreign) ∷ entries) h = absurd (omega arith)
collect_lem test ((k, directory d) ∷ entries) h = ground (arith, collect_lem test entries h)

pub length-directories-le : (m : DirMap) → length (directories m) ≤ length m
length-directories-le [] = omega arith
length-directories-le ((k, directory d) ∷ m) = omega (arith, length-directories-le m)
length-directories-le ((k, foreign) ∷ m) = omega (arith, length-directories-le m)

pub length-select-le :
    (t : Directory → Bool) (ds : List Directory) → length (select t ds) ≤ length ds
length-select-le t [] = omega arith
length-select-le t (d ∷ ds) = ground (arith, length-select-le t ds)

-- What a `Range` in the order of the visit gathers, when there are only directories.
abbrev pub gathered : (Directory → Bool) → (DirMap → DirMap) → DirMap → List Directory
gathered test visit m = select test (directories (visit m))

module _ (visit : DirMap → DirMap) (m : DirMap) (visits : SameItems (visit m) m)
    (tree : IsTree m) where
  pub collect-gathered :
      (test : Directory → Bool) → collect test (visit m) ≡ ok (gathered test visit m)
  collect-gathered test = collect_lem test (visit m) (visits is_foreign ∙ no_foreign m tree)

  pub gathered-SameItems :
      (test : Directory → Bool) → SameItems (gathered test visit m) (select test (directories m))
  gathered-SameItems test p =
      count-select p test (directories (visit m))
      ∙ count-directories (λ x. p x && test x) (visit m)
      ∙ visits (on_entry (λ x. p x && test x))
      ∙ sym (count-directories (λ x. p x && test x) m)
      ∙ sym (count-select p test (directories m))

  pub length-gathered-le : (test : Directory → Bool) → length (gathered test visit m) ≤ length m
  length-gathered-le test = omega (
    arith,
    length_of_SameItems (gathered test visit m) (select test (directories m))
        (gathered-SameItems test),
    length-select-le test (directories m),
    length-directories-le m,
  )

-- The roots that a caller may see, with or without the deleted ones.
abbrev pub is_listed_root : Options → Directory → Bool
is_listed_root opts d = is_visible opts d && is_none d.parent

module _ (visit : DirMap → DirMap) (m : DirMap) where
  -- The whole listing of the roots, of which ListRoots gives pages.
  abbrev pub root_listing : Options → List Directory
  root_listing opts = sort_by_created (gathered (is_listed_root opts) visit m)

  -- On a tree ListRoots gives the page that the options name of the ids of one listing, which
  -- holds each visible root as often as the map does, the oldest first, whatever the order of the
  -- visit is, for a map smaller than 2 ^ 63 and a page that ends below 2 ^ 63.
  pub list_roots_pages :
      (settings : List Setting)
      → SameItems (visit m) m
      → IsTree m
      → length m < int_half
      → page_of (build_options settings) < int_half
      → skipped (build_options settings) + size_of (build_options settings) < int_half
      → SameItems
          (root_listing (build_options settings))
          (select (is_listed_root (build_options settings)) (directories m))
        × IsSorted (root_listing (build_options settings))
        × (list_roots visit m settings
            ≡ ok (
                map
                  (λ (d : Directory). d.id)
                  (window (build_options settings) (root_listing (build_options settings)))))
  unfolding list_roots
  list_roots_pages settings visits tree small h k =
      let opts = build_options settings in
      let test = is_listed_root opts in
      let ds = gathered test visit m in
      (
        λ p. sort_by_created-SameItems ds p ∙ gathered-SameItems visit m visits tree test p,
        sort_by_created-IsSorted ds,
        rw (collect-gathered visit m visits tree test) (
            rw (
              copy_page_lem opts (sort_by_created ds) h k (
                omega (
                  arith,
                  length_of_SameItems (sort_by_created ds) ds (sort_by_created-SameItems ds),
                  length-gathered-le visit m visits tree test,
                )))),
      )
