-- ===== src/Storage/Memory/Parents.antt =====
-- GetParents and GetParentsUntilAncestor of the in-memory driver as their callers see them.
use mathlib.Core.List.{append-nil, append_assoc}
use fertilesoil.Base.{
  suc, ◌+◌, ◌≤◌, ◌<◌, ◌≡◌, refl, ◌∙◌, List, [], ◌∷◌, map, reverse, length-append, length-map,
  length-reverse, ◌++◌, ◌⊎◌, inl, inr, length, ok, err, arith, directory_not_found,
}
use fertilesoil.Base.Int.{int_half}
use fertilesoil.Api.{DirectoryId, Time, Directory}
use fertilesoil.Storage.Options.{Setting, Options, build_options}
use fertilesoil.Storage.Paging.{slice_page}
use fertilesoil.Storage.Paging.Laws.{page_of, size_of, skipped, window, slice_page_lem}
use fertilesoil.Storage.DirMap.{DirMap}
use fertilesoil.Storage.SortSlice.{sink_at, sort_at_loop, sort_at}
use fertilesoil.Storage.Memory.Ancestors.{finish_parents, get_parents}
use fertilesoil.Storage.Memory.Tree.{IsTree, rank-le}
use fertilesoil.Storage.Memory.Climb.{Lineage, climb-Lineage, length-Lineage, climb-Ends}

-- Each time is later than the next one.
abbrev pub IsFalling : List Time → Type 0
IsFalling [] = Unit
IsFalling (t ∷ []) = Unit
IsFalling (t ∷ u ∷ ts) = (u.instant < t.instant) × IsFalling (u ∷ ts)

-- Times of the parents, from the nearest one up.
abbrev pub created : List Directory → List Time
created = map (λ d. d.created_at)

-- With falling keys each element sinks past all those before it.
abbrev Before : Time → List Time → Type 0
Before k [] = Unit
Before k (k' ∷ ks) = (k.instant < k'.instant) × Before k' ks

-- Each key is below all those that were before it: `left`, then the keys themselves.
abbrev Chain : List Time → List Time → Type 0
Chain left [] = Unit
Chain left (k ∷ ks) = Before k left × Chain (k ∷ left) ks

Chain-IsFalling_from :
    (left : List Time) (k : Time) (ks : List Time)
    → Before k left
    → IsFalling (k ∷ ks)
    → Chain left (k ∷ ks)
Chain-IsFalling_from left k [] b f = (b, tt)
Chain-IsFalling_from left k (k' ∷ ks) b (lt, f) =
    (b, Chain-IsFalling_from (k ∷ left) k' ks (lt, b) f)

Chain-IsFalling : (keys : List Time) → IsFalling keys → Chain [] keys
Chain-IsFalling [] f = tt
Chain-IsFalling (k ∷ ks) f = Chain-IsFalling_from [] k ks tt f

module _ {A : Type 0} where
  sink_at_all :
      (k : Time) (x : A) (ks : List Time) (ys : List A)
      → Before k ks
      → length ks ≡ length ys
      → sink_at k x ks ys ≡ ys ++ x ∷ []
  unfolding sink_at
  sink_at_all k x [] [] b e = refl
  sink_at_all k x [] (y ∷ ys) b e = absurd (omega arith)
  sink_at_all k x (k' ∷ ks) [] b e = absurd (omega arith)
  sink_at_all k x (k' ∷ ks) (y ∷ ys) b e = ground (arith, sink_at_all k' x ks ys)

  sort_at_loop_falling :
      (left : List Time) (sorted : List A) (keys : List Time) (xs : List A)
      → length left ≡ length sorted
      → length keys ≡ length xs
      → Chain left keys
      → sort_at_loop left sorted keys xs ≡ reverse (sorted ++ xs)
  unfolding sort_at_loop
  sort_at_loop_falling left sorted [] [] e f c = rw (append-nil sorted)
  sort_at_loop_falling left sorted [] (x ∷ xs) e f c = absurd (omega arith)
  sort_at_loop_falling left sorted (k ∷ keys) [] e f c = absurd (omega arith)
  sort_at_loop_falling left sorted (k ∷ keys) (x ∷ xs) e f (before, chain) =
      rw (sink_at_all k x left sorted before e) (
        sort_at_loop_falling (k ∷ left) (sorted ++ x ∷ []) keys xs
          (omega (arith, length-append sorted (x ∷ []))) (omega arith) chain
        ∙ rw (append_assoc sorted (x ∷ []) xs))

  -- A sort whose `less` reads falling times turns the slice round.
  sort_at_falling :
      (keys : List Time) (xs : List A)
      → IsFalling keys
      → length keys ≡ length xs
      → sort_at keys xs ≡ reverse xs
  unfolding sort_at
  sort_at_falling keys xs falling e =
      sort_at_loop_falling [] [] keys xs refl e (Chain-IsFalling keys falling)

module _ {A : Type 0} where
  length-sink_at :
      (k : Time) (x : A) (ks : List Time) (ys : List A)
      → length (sink_at k x ks ys) ≡ suc (length ys)
  unfolding sink_at
  length-sink_at k x (k' ∷ ks) (y ∷ ys) = ground (arith, length-sink_at k' x ks ys)
  length-sink_at k x [] ys = refl
  length-sink_at k x (k' ∷ ks) [] = refl

  length-sort_at_loop :
      (left : List Time) (sorted : List A) (keys : List Time) (xs : List A)
      → length keys ≡ length xs
      → length (sort_at_loop left sorted keys xs) ≡ length sorted + length xs
  unfolding sort_at_loop
  length-sort_at_loop left sorted [] [] e = omega (arith, length-reverse sorted)
  length-sort_at_loop left sorted [] (x ∷ xs) e = absurd (omega arith)
  length-sort_at_loop left sorted (k ∷ keys) [] e = absurd (omega arith)
  length-sort_at_loop left sorted (k ∷ keys) (x ∷ xs) e = omega (
    arith,
    length-sort_at_loop (k ∷ left) (sink_at k x left sorted) keys xs (omega arith),
    length-sink_at k x left sorted,
  )

  length-sort_at :
      (keys : List Time) (xs : List A)
      → length keys ≡ length xs
      → length (sort_at keys xs) ≡ length xs
  unfolding sort_at
  length-sort_at keys xs e = omega (arith, length-sort_at_loop [] [] keys xs e)

-- With as many parents as ids the end of both calls is a page of the sorted ids.
finish_parents_lem :
    (opts : Options) (ids : List DirectoryId) (above : List Directory)
    → length above ≡ length ids
    → finish_parents opts (ids, above) ≡ slice_page opts (sort_at (created above) ids)
unfolding finish_parents slice_page
finish_parents_lem opts ids above e =
    let f : length above ≡ length (sort_at (created above) ids) =
      omega
        (arith, length-sort_at (created above) ids (length-map above (λ d. d.created_at) ∙ e)) in
    rw f

pub finish_parents_ends :
    (opts : Options) (ids : List DirectoryId) (above : List Directory)
    → length above ≡ length ids
    → page_of opts < int_half
    → skipped opts + size_of opts < int_half
    → (page : List DirectoryId) × (finish_parents opts (ids, above) ≡ ok page)
finish_parents_ends opts ids above e h k =
    (_, finish_parents_lem opts ids above e ∙ slice_page_lem opts (sort_at (created above) ids) h k)

-- On the line of ancestors the end of GetParents gives a page of the ids, the root first.
pub finish_parents-reverse :
    (opts : Options) (ids : List DirectoryId) (above : List Directory)
    → length above ≡ length ids
    → IsFalling (created above)
    → page_of opts < int_half
    → skipped opts + size_of opts < int_half
    → finish_parents opts (ids, above) ≡ ok (window opts (reverse ids))
finish_parents-reverse opts ids above e falling h k =
    finish_parents_lem opts ids above e
    ∙ rw (sort_at_falling (created above) ids falling (length-map above (λ d. d.created_at) ∙ e))
        (slice_page_lem opts (reverse ids) h k)

-- In a tree GetParents of a directory gives the page that the options name of the ids of its
-- ancestors, from the root down to the parent, when every parent was created before its child
-- and there are at most 12 ancestors, and the page ends below 2 ^ 63.
pub get_parents-Lineage :
    (m : DirMap) (settings : List Setting) (id : DirectoryId) (ids : List DirectoryId)
    (above : List Directory)
    → IsTree m
    → Lineage m settings id ids above
    → length ids ≤ 12
    → IsFalling (created above)
    → page_of (build_options settings) < int_half
    → skipped (build_options settings) + size_of (build_options settings) < int_half
    → get_parents m id settings ≡ ok (window (build_options settings) (reverse ids))
unfolding get_parents
get_parents-Lineage m settings id ids above tree line few falling h k =
    let (short, same) = length-Lineage m settings tree line in
    rw (climb-Lineage m settings line (suc (length m)) (omega (arith, rank-le m id)))
      (finish_parents-reverse (build_options settings) ids above same falling h k)

-- GetParents always ends on a tree: with a page, or with the error that a directory is not found.
pub get_parents_ends :
    (m : DirMap) (settings : List Setting) (id : DirectoryId)
    → IsTree m
    → page_of (build_options settings) < int_half
    → skipped (build_options settings) + size_of (build_options settings) < int_half
    → ((ids : List DirectoryId) × (get_parents m id settings ≡ ok ids))
      ⊎ (get_parents m id settings ≡ err directory_not_found)
unfolding get_parents
get_parents_ends m settings id tree h k =
    elim (climb-Ends m settings (length m) id tree (rank-le m id)) [
      | inr missing ↦ inr (rw (missing (suc (length m)) [] [] (omega arith)) refl)
      | inl (ids, above, line, short) ↦
          let (page, found) =
            finish_parents_ends (build_options settings) ids above
              (length-Lineage m settings tree line).1 h k in
          inl (page, rw (climb-Lineage m settings line (suc (length m)) (omega arith)) found)
    ]
