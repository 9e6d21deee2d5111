-- ===== src/Storage/Memory/Until.antt =====
-- GetParentsUntilAncestor of the in-memory driver.
use mathlib.Core.List.{append_assoc}
use fertilesoil.Base.{
  ℕ, zero, suc, ◌+◌, ◌≤◌, ◌<◌, ◌≡◌, ◌≢◌, refl, ◌∙◌, ap, none, some, List, [], ◌∷◌, reverse, ◌++◌,
  ◌==◌, inl, inr, if◌then◌else◌, is_none, length, All, ok, err, panic, nil_dereference, arith,
  directory_not_found,
}
use fertilesoil.Base.Int.{int_half}
use fertilesoil.Api.{DirectoryId, Directory}
use fertilesoil.Storage.Options.{Setting, build_options}
use fertilesoil.Storage.Paging.Laws.{page_of, size_of, skipped, window}
use fertilesoil.Storage.DirMap.{DirMap}
use fertilesoil.Storage.Memory.Read.{get_directory}
use fertilesoil.Storage.Memory.Ancestors.{append_parent, climb_until, get_parents_until_ancestor}
use fertilesoil.Storage.Memory.Tree.{IsTree, rank, rank-le, rank-parent, lookup-IsTree}
use fertilesoil.Storage.Memory.Climb.{Lineage, root, child, get_directory-IsTree, length-Lineage}
use fertilesoil.Storage.Memory.Parents.{IsFalling, created, finish_parents-reverse}

module _ (m : DirMap) (settings : List Setting) (id : DirectoryId) (d : Directory) where
  -- What GetDirectory gives from a tree has the id asked for, and its parent stands below it.
  pub id-get_directory : IsTree m → get_directory m id settings ≡ ok d → d.id ≡ id
  id-get_directory tree found = elim (get_directory-IsTree m id settings tree) [
    | inr missing ↦ absurd (ground arith)
    | inl (c, there, entry) ↦
        let same : c ≡ d = ground arith in
        let (e, is_e, id_e) = lookup-IsTree m id tree entry in ground arith
  ]

  pub parent_below :
      (p : DirectoryId)
      → IsTree m
      → get_directory m id settings ≡ ok d
      → d.parent ≡ some p
      → rank m p < rank m id
  parent_below p tree found up = elim (get_directory-IsTree m id settings tree) [
    | inr missing ↦ absurd (ground arith)
    | inl (c, there, entry) ↦
        let same : c ≡ d = ground arith in (rank-parent m id c p tree entry (ground arith)).0
  ]

module _ (m : DirMap) (settings : List Setting) (top : Directory) (ancestor : DirectoryId) where
  -- The ids from the parent of a directory up to the ancestor, with their objects.
  pub data LineageUntil : DirectoryId → List DirectoryId → List Directory → Type 0 where
    last :
        {id : DirectoryId} {d : Directory}
        → get_directory m id settings ≡ ok d
        → d.parent ≡ some ancestor
        → LineageUntil id (ancestor ∷ []) (top ∷ [])
    below :
        {id : DirectoryId} {d : Directory} {p : DirectoryId} {q : Directory}
        {ids : List DirectoryId} {above : List Directory}
        → get_directory m id settings ≡ ok d
        → d.parent ≡ some p
        → p ≢ ancestor
        → get_directory m p settings ≡ ok q
        → LineageUntil p ids above
        → LineageUntil id (p ∷ ids) (q ∷ above)

  pub LineageUntil-found :
      {id : DirectoryId} {ids : List DirectoryId} {above : List Directory}
      → LineageUntil id ids above
      → (d : Directory) × (get_directory m id settings ≡ ok d)
  LineageUntil-found (last {d = d} here up) = (d, here)
  LineageUntil-found (below {d = d} here up other next line) = (d, here)

  module _ (fuel : ℕ) (id : DirectoryId) (d : Directory) (ids : List DirectoryId)
      (seen : List Directory) where
    until_root :
        get_directory m id settings ≡ ok d
        → d.parent ≡ none
        → climb_until (suc fuel) m settings top ancestor id ids seen
          ≡ (if d.id == ancestor then panic nil_dereference else err directory_not_found)
    unfolding climb_until
    until_root found up = ground arith

    until_last :
        get_directory m id settings ≡ ok d
        → d.parent ≡ some ancestor
        → climb_until (suc fuel) m settings top ancestor id ids seen
          ≡ ok (ids ++ ancestor ∷ [], append_parent ids seen d ++ top ∷ [])
    unfolding climb_until
    until_last found up = ground arith

    until_up :
        (p : DirectoryId)
        → get_directory m id settings ≡ ok d
        → d.parent ≡ some p
        → p ≢ ancestor
        → climb_until (suc fuel) m settings top ancestor id ids seen
          ≡ climb_until fuel m settings top ancestor p (ids ++ p ∷ []) (append_parent ids seen d)
    unfolding climb_until
    until_up p found up other = ground arith

  until_from :
      {id : DirectoryId} {ids : List DirectoryId} {above : List Directory}
      → LineageUntil id ids above
      → (fuel : ℕ) (d : Directory) (p : DirectoryId) (ps : List DirectoryId) (seen : List Directory)
      → get_directory m id settings ≡ ok d
      → length ids ≤ fuel
      → climb_until fuel m settings top ancestor id (p ∷ ps) seen
        ≡ ok (p ∷ ps ++ ids, seen ++ d ∷ above)
  until_from (last here up) zero d p ps seen found h = absurd (omega arith)
  until_from (below here up other next line) zero d p ps seen found h = absurd (omega arith)
  until_from (last {id = id} {d = c} here up) (suc fuel) d p ps seen found h =
      let same : c ≡ d = ground arith in
      until_last fuel id d (p ∷ ps) seen found (ground arith)
      ∙ rw (append_assoc seen (d ∷ []) (top ∷ []))
  until_from
        (below {id = id} {d = c} {p = r} {q = q} {ids = ids} {above = above} here up other next
          line)
        (suc fuel) d p ps seen found h =
      let same : c ≡ d = ground arith in
      until_up fuel id d (p ∷ ps) seen r found (ground arith) other
      ∙ until_from line fuel q p (ps ++ r ∷ []) (seen ++ d ∷ []) next (omega arith)
      ∙ rw (append_assoc ps (r ∷ []) ids, append_assoc seen (d ∷ []) (q ∷ above))

  climb_until-LineageUntil :
      {id : DirectoryId} {ids : List DirectoryId} {above : List Directory}
      → LineageUntil id ids above
      → (fuel : ℕ) → length ids ≤ fuel
      → climb_until fuel m settings top ancestor id [] [] ≡ ok (ids, above)
  climb_until-LineageUntil (last here up) zero h = absurd (omega arith)
  climb_until-LineageUntil (below here up other next line) zero h = absurd (omega arith)
  climb_until-LineageUntil (last {id = id} {d = d} here up) (suc fuel) h =
      until_last fuel id d [] [] here up
  climb_until-LineageUntil (below {id = id} {d = d} {p = p} {q = q} here up other next line)
        (suc fuel) h =
      until_up fuel id d [] [] p here up other ∙ until_from line fuel q p [] [] next (omega arith)

  -- In a tree such a line is no longer than the map.
  pub length-LineageUntil :
      {id : DirectoryId} {ids : List DirectoryId} {above : List Directory}
      → IsTree m
      → LineageUntil id ids above
      → (length ids ≤ rank m id) × (length above ≡ length ids)
  length-LineageUntil tree (last {id = id} {d = d} here up) =
      (omega (arith, (parent_below m settings id d ancestor tree here up)), refl)
  length-LineageUntil tree (below {id = id} {d = d} {p = p} here up other next line) =
      let (short, same) = length-LineageUntil tree line in
      (omega (arith, parent_below m settings id d p tree here up), omega arith)

  -- The loop follows the line of ancestors to its end when the ancestor is not on it.
  climb_until_absent :
      {id : DirectoryId} {ids : List DirectoryId} {above : List Directory}
      → IsTree m
      → Lineage m settings id ids above
      → (fuel : ℕ) (gathered : List DirectoryId) (seen : List Directory) → id ≢ ancestor
      → All (λ p. p ≢ ancestor) ids
      → length ids < fuel
      → climb_until fuel m settings top ancestor id gathered seen ≡ err directory_not_found
  climb_until_absent tree line zero gathered seen other others h = absurd (omega arith)
  climb_until_absent tree (root {id = id} {d = d} here up) (suc fuel) gathered seen other others h =
      until_root fuel id d gathered seen here up
      ∙ ground (arith, id-get_directory m settings id d tree here)
  climb_until_absent tree (child {id = id} {d = d} {p = p} here up next line) (suc fuel) gathered
        seen other (not_p, others) h =
      until_up fuel id d gathered seen p here up not_p
      ∙ climb_until_absent tree line fuel (gathered ++ p ∷ []) (append_parent gathered seen d) not_p
          others (omega arith)

module _ (m : DirMap) (settings : List Setting) where
  -- GetParentsUntilAncestor gives the page that the options name of the ids from the ancestor down
  -- to the parent, the ancestor first, when every parent was created before its child, there
  -- are at most 12 of these ids, and the page ends below 2 ^ 63.
  pub get_parents_until_ancestor-LineageUntil :
      (top : Directory) (ancestor id : DirectoryId) (ids : List DirectoryId)
      (above : List Directory)
      → IsTree m
      → get_directory m ancestor settings ≡ ok top
      → LineageUntil m settings top ancestor id ids above
      → length ids ≤ 12
      → IsFalling (created above)
      → page_of (build_options settings) < int_half
      → skipped (build_options settings) + size_of (build_options settings) < int_half
      → get_parents_until_ancestor m id ancestor settings
        ≡ ok (window (build_options settings) (reverse ids))
  unfolding get_parents_until_ancestor
  get_parents_until_ancestor-LineageUntil top ancestor id ids above tree found line few falling h
        k =
      let (short, same) = length-LineageUntil m settings top ancestor tree line in
      rw found (
        rw
          (climb_until-LineageUntil m settings top ancestor line (suc (length m))
            (omega (arith, rank-le m id)))
          (finish_parents-reverse (build_options settings) ids above same falling h k))

  -- When the ancestor is there, but neither the directory itself nor above it, the error is that a
  -- directory is not found.
  pub get_parents_until_ancestor_absent :
      (top : Directory) (ancestor id : DirectoryId) (ids : List DirectoryId)
      (above : List Directory)
      → IsTree m
      → get_directory m ancestor settings ≡ ok top
      → Lineage m settings id ids above
      → id ≢ ancestor
      → All (λ p. p ≢ ancestor) ids
      → get_parents_until_ancestor m id ancestor settings ≡ err directory_not_found
  unfolding get_parents_until_ancestor
  get_parents_until_ancestor_absent top ancestor id ids above tree found line other others =
      let (short, same) = length-Lineage m settings tree line in
      rw found (
        rw
          (climb_until_absent m settings top ancestor tree line (suc (length m)) [] [] other others
            (omega (arith, rank-le m id)))
          refl)

  lower_ids :
      {id : DirectoryId} {ids : List DirectoryId} {above : List Directory}
      → IsTree m
      → Lineage m settings id ids above
      → (a : DirectoryId) → rank m id < rank m a
      → All (λ p. p ≢ a) ids
  lower_ids tree (root here up) a h = tt
  lower_ids tree (child {id = id} {d = d} {p = p} here up next line) a h =
      let lower = parent_below m settings id d p tree here up in
      (
        λ e. let r : rank m p ≡ rank m a = ap (rank m) e in omega arith,
        lower_ids tree line a (omega arith),
      )

  -- Asked for the line from a directory to itself, the call never gives an empty line: it
  -- dereferences the nil parent of a root, and does not find any other directory.
  pub get_parents_until_ancestor_self :
      (id : DirectoryId) (d : Directory) (ids : List DirectoryId) (above : List Directory)
      → IsTree m
      → get_directory m id settings ≡ ok d
      → Lineage m settings id ids above
      → get_parents_until_ancestor m id id settings
        ≡ (if is_none d.parent then panic nil_dereference else err directory_not_found)
  unfolding get_parents_until_ancestor
  get_parents_until_ancestor_self id d ids above tree found (root {d = c} here up) =
      let same : c ≡ d = ground arith in
      rw found (
        rw (until_root m settings d id (length m) id d [] [] found (ground arith))
          (ground (arith, id-get_directory m settings id d tree found)))
  get_parents_until_ancestor_self id d ids above tree found
        (child {d = c} {p = p} {ids = ids'} here up next line) =
      let same : c ≡ d = ground arith in
      let lower = parent_below m settings id c p tree here up in
      let (short, eq) = length-Lineage m settings tree line in
      let other : p ≢ id = λ e. (let r : rank m p ≡ rank m id = ap (rank m) e in omega arith) in
      let goal : get_parents_until_ancestor m id id settings ≡ err directory_not_found = rw found (
        rw (until_up m settings d id (length m) id c [] [] p here up other) (
          rw
            (climb_until_absent m settings d id tree line (length m) (p ∷ []) [] other
              (lower_ids tree line id lower) (omega (arith, rank-le m id)))
            refl)) in
      ground arith
