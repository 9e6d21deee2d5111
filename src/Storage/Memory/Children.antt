-- ===== src/Storage/Memory/Children.antt =====
-- getChildren and GetChildren of the in-memory driver as their callers see them: all visible
-- descendants, in pages.
use mathlib.Core.List.{append-nil}
use fertilesoil.Base.{
  ℕ, zero, suc, ◌+◌, ◌≤◌, ◌<◌, ◌≡◌, sym, ◌∙◌, ap, Bool, true, false, ◌&&◌, ◌||◌, none, some, List,
  [], ◌∷◌, map, ◌==◌, is_some, length, arith, Option-cases, inl, inr, count, select, SameItems,
  count-select, count_ext, count_ext-All, All-imp, length_of_SameItems, ok,
}
use fertilesoil.Base.Int.{int_half}
use fertilesoil.Api.{DirectoryId, Directory, has_id}
use fertilesoil.Storage.Options.{Options, Setting, build_options}
use fertilesoil.Storage.Paging.Laws.{page_of, size_of, skipped, window, copy_page_lem}
use fertilesoil.Storage.DirMap.{directory, DirMap, lookup}
use fertilesoil.Storage.SortSlice.{sort_by_created}
use fertilesoil.Storage.Memory.Descendants.{get_descendants, get_children}
use fertilesoil.Storage.Memory.Tree.{
  IsTree, rank, rank-le, rank-parent, directories, directories-lookup, lookup_if, count-lookup_if,
  lookup-IsTree,
}
use fertilesoil.Storage.Memory.Listing.{
  gathered, collect-gathered, gathered-SameItems, length-gathered-le, IsSorted,
  sort_by_created-SameItems, sort_by_created-IsSorted, length-select-le, length-directories-le,
}
use fertilesoil.Storage.Memory.Walk.{
  is_linked, parent_in, has_id-count, Invariant, count-linked, descend_ends, start,
}

-- Following parents from a directory, at most `n` times, leads to `id`, by way of directories that
-- may be seen.
abbrev pub is_descendant : DirMap → Options → DirectoryId → ℕ → Directory → Bool
is_descendant m opts id zero d = false
is_descendant m opts id (suc n) d = elim d.parent [
  | none ↦ false
  | some p ↦ p == id || (elim (lookup_if (is_linked opts) p m) [
    | none ↦ false
    | some q ↦ is_descendant m opts id n q
  ])
]

-- The descendants that a caller may see.
abbrev pub is_listed_child : DirMap → Options → DirectoryId → Directory → Bool
is_listed_child m opts id d = is_linked opts d && is_descendant m opts id (length m) d

pub rank_pos : (m : DirMap) (id : DirectoryId) → is_some (lookup id m) ≡ true → 1 ≤ rank m id
rank_pos [] id h = absurd (cc)
rank_pos ((k, v) ∷ m) id h = ground (arith, rank_pos m id)

module _ (m : DirMap) (opts : Options) (id : DirectoryId) (linked listing : List Directory)
    (tree : IsTree m) (same : SameItems linked (select (is_linked opts) (directories m)))
    (inv : Invariant m id (is_linked opts) linked listing []) where
  has_id_lookup :
      (p : DirectoryId)
      → has_id p listing ≡ is_some (lookup_if (λ d. parent_in id listing d && is_linked opts d) p m)
  has_id_lookup p =
      let found =
        ap (count (λ (d : Directory). d.id == p)) (sym (append-nil listing))
        ∙ inv.exact (λ d. d.id == p)
        ∙ count-linked m id (is_linked opts) linked tree same
            (λ d. d.id == p && parent_in id listing d)
        ∙ count_ext _ (λ d. d.id == p && (parent_in id listing d && is_linked opts d))
            (directories m) (λ d. ground arith)
        ∙ count-lookup_if (λ d. parent_in id listing d && is_linked opts d) p m tree in
      ground (arith, has_id-count p listing)

  descendant-parent_in :
      (n : ℕ) (d : Directory)
      → lookup d.id m ≡ some (directory d)
      → rank m d.id ≤ n
      → is_descendant m opts id n d ≡ parent_in id listing d
  descendant-parent_in zero d entry h = absurd (omega (arith, rank_pos m d.id (ground arith)))
  descendant-parent_in (suc n) d entry h = elim (Option-cases d.parent) [
    | inl top ↦ ground arith
    | inr (p, up) ↦
        let (lower, there) = rank-parent m d.id d p tree entry up in
        elim (Option-cases (lookup p m)) [
          | inl missing ↦ absurd (ground arith)
          | inr (v, found) ↦
              let (q, is_q, id_q) = lookup-IsTree m p tree found in
              let entry_q : lookup q.id m ≡ some (directory q) = ground arith in
              let r : rank m q.id ≡ rank m p = ap (rank m) id_q in
              let ih = descendant-parent_in n q entry_q (omega arith) in
              ground (arith, has_id_lookup p)
        ]
  ]

  pub listing-SameItems : SameItems listing (select (is_listed_child m opts id) (directories m))
  listing-SameItems p =
      ap (count p) (sym (append-nil listing))
      ∙ inv.exact p
      ∙ count-linked m id (is_linked opts) linked tree same (λ d. p d && parent_in id listing d)
      ∙ count_ext-All _ (λ d. p d && is_listed_child m opts id d) (directories m)
          (All-imp _
            (λ d.
              (p d && parent_in id listing d && is_linked opts d)
              ≡ (p d && is_listed_child m opts id d))
            (directories m)
            (λ d entry. ground (arith, descendant-parent_in (length m) d entry (rank-le m d.id)))
            (directories-lookup m tree))
      ∙ sym (count-select p (is_listed_child m opts id) (directories m))

module _ (visit : DirMap → DirMap) (m : DirMap) (visits : SameItems (visit m) m)
    (tree : IsTree m) where
  -- On a tree getChildren ends, and gives each visible descendant as often as the map holds it.
  pub get_descendants_ends :
      (id : DirectoryId) (opts : Options)
      → (listing : List Directory) × (get_descendants visit m id opts ≡ ok listing)
        × SameItems listing (select (is_listed_child m opts id) (directories m))
  unfolding get_descendants
  get_descendants_ends id opts =
      let linked = gathered (is_linked opts) visit m in
      let same = gathered-SameItems visit m visits tree (is_linked opts) in
      let (listing, ends, inv) =
        descend_ends m id (is_linked opts) linked tree same (suc (length m)) [] _
          (start m id (is_linked opts) linked tree same)
          (omega (arith, length-gathered-le visit m visits tree (is_linked opts))) in
      (
        listing,
        rw (collect-gathered visit m visits tree (is_linked opts)) ends,
        listing-SameItems m opts id linked listing tree same inv,
      )

  -- On a tree GetChildren gives the page that the options name of the ids of one listing, which
  -- holds each visible descendant as often as the map does, the oldest first, whatever the order
  -- of the visit is, for a map smaller than 2 ^ 63 and a page that ends below 2 ^ 63.
  pub get_children_pages :
      (id : DirectoryId) (settings : List Setting)
      → length m < int_half
      → page_of (build_options settings) < int_half
      → skipped (build_options settings) + size_of (build_options settings) < int_half
      → (listing : List Directory) × SameItems listing
          (select (is_listed_child m (build_options settings) id) (directories m))
        × IsSorted listing
        × (get_children visit m id settings
            ≡ ok (map (λ (d : Directory). d.id) (window (build_options settings) listing)))
  unfolding get_children
  get_children_pages id settings small h k =
      let opts = build_options settings in
      let (found, ends, same) = get_descendants_ends id opts in
      (
        sort_by_created found,
        λ p. sort_by_created-SameItems found p ∙ same p,
        sort_by_created-IsSorted found,
        rw ends (
            rw (
              copy_page_lem opts (sort_by_created found) h k (
                omega (
                  arith,
                  length_of_SameItems (sort_by_created found) found
                      (sort_by_created-SameItems found),
                  length_of_SameItems found _ same,
                  length-select-le (is_listed_child m opts id) (directories m),
                  length-directories-le m,
                )))),
      )
