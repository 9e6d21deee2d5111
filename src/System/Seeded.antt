-- ===== src/System/Seeded.antt =====
-- The table after a full reconciliation (app/v1/fullsubtree_reconciler.go) against the map of the
-- in-memory driver.
use fertilesoil.Base.{
  ℕ, zero, suc, ◌≤◌, ◌≡◌, refl, ◌∙◌, ap, sym, true, false, not, ◌||◌, none, some, is_some, List, [],
  ◌∷◌, ◌==◌, if◌then◌else◌, arith, Option-cases, inl, inr, count, length, SameItems, select,
  count-select,
}
use fertilesoil.Api.{DirectoryId, Directory}
use fertilesoil.Storage.Options.{build_options}
use fertilesoil.Storage.DirMap.{directory, foreign, DirMap, lookup}
use fertilesoil.Storage.Memory.Tree.{
  IsTree, rank, rank-parent, rank-le, lookup-IsTree, directories, count-lookup_if, lookup_if,
}
use fertilesoil.Storage.Memory.Children.{is_descendant, is_listed_child, rank_pos}
use fertilesoil.Storage.Memory.Deleted.{ids_of}
use fertilesoil.Storage.Memory.Deletion.{contains}
use fertilesoil.App.SqlStorage.{Rows, find_row}
use fertilesoil.App.Tracking.{HasKeys}
use fertilesoil.App.Seeding.{track, track_all}
use fertilesoil.System.Tracker.{view}
use fertilesoil.System.Subtree.{in_subtree, parent_passes, subtree, subtree-in}
use fertilesoil.System.Within.{in_subtree-parent}

-- What the rows say when some ids have been added.
view-track_all :
    (xs : List DirectoryId) (rows : Rows) (x : DirectoryId)
    → view (track_all xs rows) x
      ≡ (if is_some (view rows x) then view rows x else if contains x xs then some false else none)
view-track_all [] rows x = ground arith
view-track_all (y ∷ xs) rows x = ground (arith, view-track_all xs (track y rows) x)

track-HasKeys : (x : DirectoryId) (rows : Rows) → HasKeys rows → HasKeys (track x rows)
track-HasKeys x rows keys = elim (Option-cases (find_row x rows)) [
  | inl new ↦ let e : track x rows ≡ (x, none) ∷ rows = ground arith in rw e (new, keys)
  | inr (at, old) ↦ let e : track x rows ≡ rows = ground arith in rw e keys
]

pub track_all-HasKeys :
    (xs : List DirectoryId) (rows : Rows) → HasKeys rows → HasKeys (track_all xs rows)
track_all-HasKeys [] rows keys = keys
track_all-HasKeys (x ∷ xs) rows keys =
    track_all-HasKeys xs (track x rows) (track-HasKeys x rows keys)

contains-count :
    (x : DirectoryId) (ds : List Directory)
    → contains x (ids_of ds) ≡ not (count (λ (d : Directory). d.id == x) ds == 0)
contains-count x [] = refl
contains-count x (d ∷ ds) = ground (arith, contains-count x ds)

-- Every directory of the subtree is live.
abbrev pub LiveBelow : DirectoryId → DirMap → Type 0
LiveBelow base m =
    (x : DirectoryId) (d : Directory)
    → in_subtree base m x ≡ true
    → lookup x m ≡ some (directory d)
    → d.deleted_at ≡ none

module _ (base : DirectoryId) (m : DirMap) (tree : IsTree m) (live : LiveBelow base m) where
  -- The parents of a directory lead to the base directory when its parent is in the subtree.
  descendant-in_subtree :
      (n : ℕ) (d : Directory)
      → lookup d.id m ≡ some (directory d)
      → rank m d.id ≤ n
      → is_descendant m (build_options []) base n d
        ≡ parent_passes (in_subtree base m) (directory d)
  unfolding build_options
  descendant-in_subtree zero d entry h = absurd (omega (arith, rank_pos m d.id (ground arith)))
  descendant-in_subtree (suc n) d entry h = elim (Option-cases d.parent) [
    | inl top ↦ ground arith
    | inr (p, up) ↦
        let (lower, there) = rank-parent m d.id d p tree entry up in
        elim (Option-cases (lookup p m)) [
          | inl missing ↦ absurd (ground arith)
          | inr (v, found) ↦
              let (q, is_q, id_q) = lookup-IsTree m p tree found in
              let entry_q : lookup q.id m ≡ some (directory q) = ground arith in
              let entry_p : lookup p m ≡ some (directory q) = ground arith in
              let r : rank m q.id ≡ rank m p = ap (rank m) id_q in
              let ih = descendant-in_subtree n q entry_q (omega arith) in
              ground (arith, in_subtree-parent base m p q tree entry_p, live p q)
        ]
  ]

  -- An id is in the subtree when it is the base directory or its directory is a visible descendant.
  in_subtree-listed :
      (x : DirectoryId)
      → is_some (lookup base m) ≡ true
      → in_subtree base m x
        ≡ (x == base || is_some (lookup_if (is_listed_child m (build_options []) base) x m))
  unfolding build_options
  in_subtree-listed x there = elim (Option-cases (lookup x m)) [
    | inl missing ↦ ground (arith, subtree-in base m x tree)
    | inr (v, found) ↦
        let (d, is_d, id_d) = lookup-IsTree m x tree found in
        let entry : lookup x m ≡ some (directory d) = ground arith in
        let entry_d : lookup d.id m ≡ some (directory d) = ground arith in
        ground (
          arith,
          in_subtree-parent base m x d tree entry,
          descendant-in_subtree (length m) d entry_d (rank-le m d.id),
          live x d,
        )
  ]

  subtree-live :
      (x : DirectoryId) → subtree base m x ≡ (if in_subtree base m x then some false else none)
  subtree-live x = elim (Option-cases (lookup x m)) [
    | inl missing ↦ ground (arith, subtree-in base m x tree)
    | inr (directory d, found) ↦ ground (arith, live x d)
    | inr (foreign, found) ↦ ground (arith, subtree-in base m x tree)
  ]

  -- The ids that the seeding tracks are those of the subtree, when the listing is all of the visible descendants.
  module _ (listing : List Directory) (x : DirectoryId) (there : is_some (lookup base m) ≡ true)
      (same : SameItems listing
        (select (is_listed_child m (build_options []) base) (directories m))) where
    pub seeded-contains : contains x (base ∷ ids_of listing) ≡ in_subtree base m x
    seeded-contains =
        let listed = is_listed_child m (build_options []) base in
        let found =
          same (λ d. d.id == x)
          ∙ count-select (λ d. d.id == x) listed (directories m)
          ∙ count-lookup_if listed x m tree in
        ground (arith, found, in_subtree-listed x there, contains-count x listing)

    pub seeded-subtree : view (track_all (base ∷ ids_of listing) []) x ≡ subtree base m x
    seeded-subtree =
        view-track_all (base ∷ ids_of listing) [] x
        ∙ ap (λ b. if b then some false else none) seeded-contains
        ∙ sym (subtree-live x)
