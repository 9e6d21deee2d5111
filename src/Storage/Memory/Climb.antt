-- ===== src/Storage/Memory/Climb.antt =====
-- The loop that follows the parents (GetParents), and the line of ancestors.
use fertilesoil.Base.{
  ℕ, zero, suc, ◌≤◌, ◌<◌, ◌≡◌, refl, ◌∙◌, not, ◌&&◌, none, some, List, [], ◌∷◌, ◌++◌, ◌⊎◌, inl, inr,
  is_some, length, ok, err, arith, Option-cases, Bool-cases, directory_not_found,
}
use mathlib.Core.List.{append-nil, append_assoc}
use fertilesoil.Api.{DirectoryId, Directory}
use fertilesoil.Storage.Options.{Setting, build_options}
use fertilesoil.Storage.DirMap.{directory, DirMap, lookup}
use fertilesoil.Storage.Memory.Read.{get_directory}
use fertilesoil.Storage.Memory.Ancestors.{append_parent, climb}
use fertilesoil.Storage.Memory.Tree.{IsTree, rank, rank-parent, lookup-IsTree}

-- The ancestors of a directory, from its parent up to the root: ids and objects, each as
-- GetDirectory gives it.
pub data Lineage (m : DirMap) (settings : List Setting)
    : DirectoryId → List DirectoryId → List Directory → Type 0 where
  root :
      {id : DirectoryId} {d : Directory}
      → get_directory m id settings ≡ ok d
      → d.parent ≡ none
      → Lineage m settings id [] []
  child :
      {id : DirectoryId} {d : Directory} {p : DirectoryId} {q : Directory} {ids : List DirectoryId}
      {above : List Directory}
      → get_directory m id settings ≡ ok d
      → d.parent ≡ some p
      → get_directory m p settings ≡ ok q
      → Lineage m settings p ids above
      → Lineage m settings id (p ∷ ids) (q ∷ above)

-- In a tree a lookup gives a directory or reports that it is not found.
pub get_directory-IsTree :
    (m : DirMap) (id : DirectoryId) (settings : List Setting)
    → IsTree m
    → ((d : Directory) × (get_directory m id settings ≡ ok d) × (lookup id m ≡ some (directory d)))
      ⊎ (get_directory m id settings ≡ err directory_not_found)
unfolding get_directory
get_directory-IsTree m id settings tree = elim (Option-cases (lookup id m)) [
  | inl missing ↦ inr (ground arith)
  | inr (v, found) ↦
      let (d, is_d, same) = lookup-IsTree m id tree found in
      elim (Bool-cases
        (is_some d.deleted_at && not (build_options settings).with_deleted_directories)) [
          | inl hidden ↦ inr (ground arith)
          | inr shown ↦ inl (d, ground arith, ground arith)
        ]
]

module _ (m : DirMap) (settings : List Setting) where
  climb_missing :
      (fuel : ℕ) (id : DirectoryId) (ids : List DirectoryId) (seen : List Directory)
      → get_directory m id settings ≡ err directory_not_found
      → climb (suc fuel) m settings id ids seen ≡ err directory_not_found
  unfolding climb
  climb_missing fuel id ids seen missing = rw missing refl

  climb_top :
      (fuel : ℕ) (id : DirectoryId) (d : Directory) (ids : List DirectoryId) (seen : List Directory)
      → get_directory m id settings ≡ ok d
      → d.parent ≡ none
      → climb (suc fuel) m settings id ids seen ≡ ok (ids, append_parent ids seen d)
  unfolding climb
  climb_top fuel id d ids seen found top = ground arith

  climb_up :
      (fuel : ℕ) (id : DirectoryId) (d : Directory) (p : DirectoryId) (ids : List DirectoryId)
      (seen : List Directory)
      → get_directory m id settings ≡ ok d
      → d.parent ≡ some p
      → climb (suc fuel) m settings id ids seen
        ≡ climb fuel m settings p (ids ++ p ∷ []) (append_parent ids seen d)
  unfolding climb
  climb_up fuel id d p ids seen found up = ground arith

  -- The loop in the middle of the line: `p ∷ ps` are the ids gathered so far.
  climb_from :
      {id : DirectoryId} {ids : List DirectoryId} {above : List Directory}
      → Lineage m settings id ids above
      → (fuel : ℕ) (d : Directory) (p : DirectoryId) (ps : List DirectoryId) (seen : List Directory)
      → get_directory m id settings ≡ ok d
      → length ids < fuel
      → climb fuel m settings id (p ∷ ps) seen ≡ ok (p ∷ ps ++ ids, seen ++ d ∷ above)
  climb_from line zero d p ps seen found h = absurd (omega arith)
  climb_from (root {id = id} {d = c} here top) (suc fuel) d p ps seen found h =
      let same : c ≡ d = ground arith in
      climb_top fuel id d (p ∷ ps) seen found (ground arith) ∙ rw (append-nil ps)
  climb_from (child {id = id} {d = c} {p = r} {q = q} {ids = ids} {above = above} here up next line)
        (suc fuel) d p ps seen found h =
      let same : c ≡ d = ground arith in
      climb_up fuel id d r (p ∷ ps) seen found (ground arith)
      ∙ climb_from line fuel q p (ps ++ r ∷ []) (seen ++ d ∷ []) next (omega arith)
      ∙ rw (append_assoc ps (r ∷ []) ids, append_assoc seen (d ∷ []) (q ∷ above))

  -- With more fuel than ancestors the loop of GetParents ends with exactly the line of ancestors.
  pub climb-Lineage :
      {id : DirectoryId} {ids : List DirectoryId} {above : List Directory}
      → Lineage m settings id ids above
      → (fuel : ℕ) → length ids < fuel
      → climb fuel m settings id [] [] ≡ ok (ids, above)
  climb-Lineage line zero h = absurd (omega arith)
  climb-Lineage (root {id = id} {d = d} here top) (suc fuel) h = climb_top fuel id d [] [] here top
  climb-Lineage (child {id = id} {d = d} {p = p} {q = q} here up next line) (suc fuel) h =
      climb_up fuel id d p [] [] here up ∙ climb_from line fuel q p [] [] next (omega arith)

  pub Lineage-found :
      {id : DirectoryId} {ids : List DirectoryId} {above : List Directory}
      → Lineage m settings id ids above
      → (d : Directory) × (get_directory m id settings ≡ ok d)
  Lineage-found (root {d = d} here top) = (d, here)
  Lineage-found (child {d = d} here up next line) = (d, here)

  -- How the loop of GetParents ends when it is given more than `n` rounds: it finds the line of
  -- ancestors, of at most `n` steps, or it meets an id that GetDirectory does not find.
  abbrev pub Ends : ℕ → DirectoryId → Type 0
  Ends n id =
      ((ids : List DirectoryId) × (above : List Directory) × Lineage m settings id ids above
        × (length ids ≤ n))
      ⊎ ((fuel : ℕ) (ids : List DirectoryId) (seen : List Directory)
          → n < fuel
          → climb fuel m settings id ids seen ≡ err directory_not_found)

  Ends-missing :
      (n : ℕ) (id : DirectoryId) → get_directory m id settings ≡ err directory_not_found → Ends n id
  Ends-missing n id missing = inr stops
    where
      stops :
          (fuel : ℕ) (ids : List DirectoryId) (seen : List Directory)
          → n < fuel
          → climb fuel m settings id ids seen ≡ err directory_not_found
      stops zero ids seen h = absurd (omega arith)
      stops (suc fuel) ids seen h = climb_missing fuel id ids seen missing

  Ends-up :
      (n : ℕ) (id : DirectoryId) (d : Directory) (p : DirectoryId)
      → get_directory m id settings ≡ ok d
      → d.parent ≡ some p
      → Ends n p
      → Ends (suc n) id
  Ends-up n id d p found up (inl (ids, above, line, h)) =
      let (q, next) = Lineage-found line in
      inl (p ∷ ids, q ∷ above, child found up next line, omega arith)
  Ends-up n id d p found up (inr missing) = inr stops
    where
      stops :
          (fuel : ℕ) (ids : List DirectoryId) (seen : List Directory)
          → suc n < fuel
          → climb fuel m settings id ids seen ≡ err directory_not_found
      stops zero ids seen h = absurd (omega arith)
      stops (suc fuel) ids seen h =
          climb_up fuel id d p ids seen found up ∙ missing fuel _ _ (omega arith)

  pub climb-Ends : (n : ℕ) (id : DirectoryId) → IsTree m → rank m id ≤ n → Ends n id
  climb-Ends zero id tree h = elim (get_directory-IsTree m id settings tree) [
    | inr missing ↦ Ends-missing zero id missing
    | inl (d, found, entry) ↦ elim (Option-cases d.parent) [
      | inl top ↦ inl ([], [], root found top, omega arith)
      | inr (p, up) ↦ absurd (omega (arith, (rank-parent m id d p tree entry up).0))
    ]
  ]
  climb-Ends (suc n) id tree h = elim (get_directory-IsTree m id settings tree) [
    | inr missing ↦ Ends-missing (suc n) id missing
    | inl (d, found, entry) ↦ elim (Option-cases d.parent) [
      | inl top ↦ inl ([], [], root found top, omega arith)
      | inr (p, up) ↦
          Ends-up n id d p found up
            (climb-Ends n p tree (omega (arith, (rank-parent m id d p tree entry up).0)))
    ]
  ]

  -- The line of ancestors in a tree is no longer than the map.
  pub length-Lineage :
      {id : DirectoryId} {ids : List DirectoryId} {above : List Directory}
      → IsTree m
      → Lineage m settings id ids above
      → (length ids ≤ rank m id) × (length above ≡ length ids)
  length-Lineage tree (root here top) = (omega arith, refl)
  length-Lineage tree (child {id = id} {d = d} {p = p} {ids = ids} here up next line) =
      let (short, same) = length-Lineage tree line in
      elim (get_directory-IsTree m id settings tree) [
        | inr missing ↦ absurd (ground arith)
        | inl (c, found, entry) ↦
            let equal : c ≡ d = ground arith in
            let below = (rank-parent m id c p tree entry (ground arith)).0 in
            (omega arith, omega arith)
      ]
