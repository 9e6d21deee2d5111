-- ===== src/Storage/Memory/Deleted.antt =====
-- DeleteDirectory of the in-memory driver as its callers see it.
use fertilesoil.Base.{
  ℕ, zero, suc, ◌+◌, ◌≤◌, ◌<◌, ◌≡◌, refl, ◌∙◌, ap, Bool, true, false, not, ◌&&◌, some, List, [],
  ◌∷◌, map, take, ◌==◌, length, arith, Bool-cases, Option-cases, ==_iff, ==_self, inl, inr, count,
  select, SameItems, count-select, count_none, count-take-le, All-of_count, All, All-imp, All-take,
  ok,
}
use fertilesoil.Base.Int.{int_half}
use fertilesoil.Api.{DirectoryId, Time, Directory}
use fertilesoil.Storage.Options.{Options, build_options, get_page, get_page_size}
use fertilesoil.Storage.Paging.Laws.{page_of, size_of, skipped, window}
use fertilesoil.Storage.DirMap.{directory, DirMap, lookup}
use fertilesoil.Storage.Memory.Read.{get_directory}
use fertilesoil.Storage.Memory.Descendants.{get_children}
use fertilesoil.Storage.Memory.Delete.{
  mark_deleted, write_deleted, delete_children, delete_directory,
}
use fertilesoil.Storage.Memory.Tree.{
  IsTree, rank, rank-parent, directories, directories-lookup, count-lookup_if, lookup-IsTree,
}
use fertilesoil.Storage.Memory.Listing.{IsSorted}
use fertilesoil.Storage.Memory.Children.{is_descendant, is_listed_child, get_children_pages}
use fertilesoil.Storage.Memory.Deletion.{
  contains, Distinct, is_live, mark_entry, mark_all, mark_all-IsTree, live_after, mark_entry-IsTree,
  live-get_directory, delete_children_lem, Deletes, Deletes-step,
}

abbrev pub ids_of : List Directory → List DirectoryId
ids_of = map (λ d. d.id)

-- A descendant stands above the directory that its parents lead to.
descendant_above :
    (m : DirMap) (opts : Options) (id : DirectoryId) (n : ℕ) (d : Directory)
    → IsTree m
    → lookup d.id m ≡ some (directory d)
    → is_descendant m opts id n d ≡ true
    → rank m id < rank m d.id
descendant_above m opts id zero d tree entry h = absurd (cc)
descendant_above m opts id (suc n) d tree entry h = elim (Option-cases d.parent) [
  | inl top ↦ absurd (ground arith)
  | inr (p, up) ↦
      let (lower, there) = rank-parent m d.id d p tree entry up in
      elim (Bool-cases (p == id)) [
        | inl at_id ↦
            let r : rank m p ≡ rank m id = ap (rank m) ((==_iff p id).0 at_id) in omega arith
        | inr off ↦ elim (Option-cases (lookup p m)) [
          | inl missing ↦ absurd (ground arith)
          | inr (v, found) ↦
              let (q, is_q, id_q) = lookup-IsTree m p tree found in
              let entry_q : lookup q.id m ≡ some (directory q) = ground arith in
              let r : rank m q.id ≡ rank m p = ap (rank m) id_q in
              let ih = descendant_above m opts id n q tree entry_q in ground arith
        ]
      ]
]

contains-ids_of :
    (x : DirectoryId) (ds : List Directory)
    → count (λ d. d.id == x) ds ≡ 0
    → contains x (ids_of ds) ≡ false
contains-ids_of x [] h = refl
contains-ids_of x (d ∷ ds) h = ground (arith, contains-ids_of x ds)

Distinct-ids_of :
    (ds : List Directory)
    → ((x : DirectoryId) → count (λ (d : Directory). d.id == x) ds ≤ 1)
    → Distinct (ids_of ds)
Distinct-ids_of [] h = tt
Distinct-ids_of (d ∷ ds) h = (
  ground (arith, h d.id, contains-ids_of d.id ds, ==_self d.id),
  Distinct-ids_of ds (λ x. ground (arith, h x)),
)

All-ids_of :
    (p : DirectoryId → Bool) (ds : List Directory)
    → All (λ (d : Directory). p d.id ≡ true) ds
    → All (λ x. p x ≡ true) (ids_of ds)
All-ids_of p [] h = tt
All-ids_of p (d ∷ ds) (here, h) = (here, All-ids_of p ds h)

module _ (m : DirMap) (id : DirectoryId) (listing : List Directory) (tree : IsTree m)
    (same : SameItems listing
      (select (is_listed_child m (build_options []) id) (directories m))) where
  abbrev listed : Directory → Bool
  listed = is_listed_child m (build_options []) id

  count-listing :
      (p : Directory → Bool) → count p listing ≡ count (λ d. p d && listed d) (directories m)
  count-listing p = same p ∙ count-select p listed (directories m)

  listing_once : (x : DirectoryId) → count (λ (d : Directory). d.id == x) listing ≤ 1
  listing_once x =
      let e = count-listing (λ d. d.id == x) ∙ count-lookup_if listed x m tree in ground arith

  not_itself :
      (d : Directory) → lookup d.id m ≡ some (directory d) → (d.id == id && listed d) ≡ false
  not_itself d entry = elim (Bool-cases (d.id == id)) [
    | inr other ↦ rw other refl
    | inl itself ↦ elim (Bool-cases (is_descendant m (build_options []) id (length m) d)) [
      | inr off ↦ ground arith
      | inl on ↦
          let r : rank m d.id ≡ rank m id = ap (rank m) ((==_iff d.id id).0 itself) in
          let above = descendant_above m (build_options []) id (length m) d tree entry on in
          absurd (omega arith)
    ]
  ]

  -- The directory itself is not among its descendants.
  listing_without : count (λ (d : Directory). d.id == id) listing ≡ 0
  listing_without =
      count-listing (λ d. d.id == id)
      ∙ count_none (λ d. d.id == id && listed d) (directories m)
          (All-imp _ (λ d. (d.id == id && listed d) ≡ false) (directories m)
            (λ d entry. not_itself d entry) (directories-lookup m tree))

  listing_live : All (λ (d : Directory). is_live m d.id ≡ true) listing
  unfolding build_options
  listing_live =
      All-of_count (λ d. is_live m d.id) listing
        (count-listing (λ d. not (is_live m d.id))
          ∙ count_none (λ d. not (is_live m d.id) && listed d) (directories m)
              (All-imp _ (λ d. (not (is_live m d.id) && listed d) ≡ false) (directories m)
                (λ d entry. ground arith) (directories-lookup m tree)))

-- Without options a page is the first ten elements.
pub window_default : {A : Type 0} (xs : List A) → window (build_options []) xs ≡ take 10 xs
unfolding build_options get_page get_page_size
window_default xs = refl

pub default_fits :
    (page_of (build_options []) < int_half)
    × (skipped (build_options []) + size_of (build_options []) < int_half)
unfolding build_options get_page get_page_size
default_fits = (omega arith, omega arith)

delete_directory_step :
    (visit : DirMap → DirMap) (t : Time) (id : DirectoryId) (m : DirMap) (d : Directory)
    (p : DirectoryId) (ids : List DirectoryId) (rest : List Directory) (m' : DirMap)
    → get_directory m id [] ≡ ok d
    → d.parent ≡ some p
    → get_children visit m id [] ≡ ok ids
    → delete_children t ids (write_deleted id t d m) ≡ (ok rest, m')
    → delete_directory visit t id m ≡ (ok (mark_deleted t d ∷ rest), m')
unfolding delete_directory
delete_directory_step visit t id m d p ids rest m' found child children deleted = ground arith

module _ (visit : DirMap → DirMap) (t : Time) (id : DirectoryId) (m : DirMap) (d : Directory)
    (p : DirectoryId) where
  -- The deletion, with the chain of its marks.
  pub delete_directory_chain :
      SameItems (visit m) m
      → IsTree m
      → length m < int_half
      → is_live m id ≡ true
      → lookup id m ≡ some (directory d)
      → d.parent ≡ some p
      → (listing : List Directory) × SameItems listing
          (select (is_listed_child m (build_options []) id) (directories m))
        × IsSorted listing
        × (affected : List Directory) × (delete_directory visit t id m
            ≡ (ok affected, mark_all t (id ∷ ids_of (take 10 listing)) m))
        × (ids_of affected ≡ id ∷ ids_of (take 10 listing))
        × Deletes t affected m (mark_all t (id ∷ ids_of (take 10 listing)) m)
  delete_directory_chain visits tree small live entry child =
      let (listing, same, sorted, children) =
        get_children_pages visit m visits tree id [] small default_fits.0 default_fits.1 in
      let page = take 10 listing in
      let (d', found, entry') = live-get_directory m id live in
      let is_d : d' ≡ d = ground arith in
      let (e, is_e, id_d) = lookup-IsTree m id tree entry in
      let new : contains id (ids_of page) ≡ false = contains-ids_of id page (
        omega (
          arith,
          listing_without m id listing tree same,
          count-take-le (λ (c : Directory). c.id == id) 10 listing,
        )) in
      let once = Distinct-ids_of page (λ x. omega (
        arith,
        listing_once m id listing tree same x,
        count-take-le (λ (c : Directory). c.id == x) 10 listing,
      )) in
      let alive =
        All-ids_of (is_live m) page (All-take _ 10 listing (listing_live m id listing tree same)) in
      let (rest, deleted, ids, chain) =
        delete_children_lem t (ids_of page) (mark_entry t id m) (mark_entry-IsTree t id m tree) once
          (live_after t id m (ids_of page) new alive) in
      let written : mark_entry t id m ≡ write_deleted id t d m = ground arith in
      (
        listing,
        same,
        sorted,
        mark_deleted t d ∷ rest,
        delete_directory_step visit t id m d p (ids_of page) rest _ (ground arith) child
            (children ∙ rw (window_default listing) refl) (rw (← written) deleted),
        ground arith,
        Deletes-step t id d rest m _ (ground arith) entry live chain,
      )

  -- On a tree, DeleteDirectory of a directory that is not deleted and is no root marks that
  -- directory and the ten oldest of its visible descendants (all of them when there are no more
  -- than ten), and changes nothing else in the map, which stays a tree; what it returns are the
  -- objects with these ids, the directory first.
  pub delete_directory_marks :
      SameItems (visit m) m
      → IsTree m
      → length m < int_half
      → is_live m id ≡ true
      → lookup id m ≡ some (directory d)
      → d.parent ≡ some p
      → (listing : List Directory) × SameItems listing
          (select (is_listed_child m (build_options []) id) (directories m))
        × IsSorted listing
        × (affected : List Directory) × (delete_directory visit t id m
            ≡ (ok affected, mark_all t (id ∷ ids_of (take 10 listing)) m))
        × (ids_of affected ≡ id ∷ ids_of (take 10 listing))
        × IsTree (mark_all t (id ∷ ids_of (take 10 listing)) m)
  delete_directory_marks visits tree small live entry child =
      let (listing, same, sorted, affected, deleted, ids, chain) =
        delete_directory_chain visits tree small live entry child in
      (
        listing,
        same,
        sorted,
        affected,
        deleted,
        ids,
        mark_all-IsTree t (id ∷ ids_of (take 10 listing)) m tree,
      )
