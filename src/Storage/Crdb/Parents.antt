-- ===== src/Storage/Crdb/Parents.antt =====
-- GetParents and GetParentsUntilAncestor of the CockroachDB driver.
use mathlib.Core.List.{append-nil, append_assoc}
use fertilesoil.Base.{
  ℕ, zero, suc, ◌≤◌, ◌<◌, ◌≡◌, ◌≢◌, refl, sym, ap, ◌∙◌, true, false, ◌&&◌, none, some, List, [],
  ◌∷◌, ◌++◌, ◌==◌, length, arith, select, select_ext, select_none, All, subst, ok, inl, inr,
  Option-cases, Bool-cases, ==_iff,
}
use fertilesoil.Api.{DirectoryId, Directory, has_id}
use fertilesoil.Storage.Options.{Setting, build_options}
use fertilesoil.Storage.DirMap.{lookup}
use fertilesoil.Storage.SortSlice.{sink, sort_loop, sort_by_created}
use fertilesoil.Storage.Memory.Read.{get_directory, is_visible}
use fertilesoil.Storage.Memory.Tree.{rank, lookup_if, lookup-IsTree}
use fertilesoil.Storage.Memory.Climb.{Lineage, root, child}
use fertilesoil.Storage.Memory.Until.{LineageUntil, last, below, id-get_directory, parent_below}
use fertilesoil.Storage.Memory.Walk.{has_id-append}
use fertilesoil.Storage.Crdb.Table.{Rows}
use fertilesoil.Storage.Crdb.Recursive.{
  rounds, distinct, is_parent_of, except, base_row, join_parents,
}
use fertilesoil.Storage.Crdb.Entries.{entries, IsTable, select_by_id}
use fertilesoil.Storage.Crdb.Rounds.{rounds_step}

-- A round that finds nothing is the last one.
rounds_end :
    (step : Rows → Rows) (d : Directory) (found : Rows) (fuel : ℕ)
    → step (d ∷ []) ≡ []
    → rounds (suc fuel) step found (d ∷ []) ≡ ok found
unfolding rounds distinct
rounds_end step d found fuel nothing =
    rounds_step fuel step found d [] [] (ap (distinct found) nothing)
    ∙ done fuel
    ∙ ap ok (append-nil found)
  where
    done : (fuel : ℕ) → rounds fuel step (found ++ []) [] ≡ ok (found ++ [])
    done zero = refl
    done (suc n) = refl

module _ (rows : Rows) (settings : List Setting) (table : IsTable rows) where
  -- What GetDirectory gives is found by its primary key.
  visible_lem :
      (id : DirectoryId) (d : Directory)
      → get_directory (entries rows) id settings ≡ ok d
      → lookup_if (is_visible (build_options settings)) id (entries rows) ≡ some d
  unfolding get_directory
  visible_lem id d found = elim (Option-cases (lookup id (entries rows))) [
    | inl missing ↦ absurd (ground arith)
    | inr (v, entry) ↦
        let (c, is_c, same) = lookup-IsTree (entries rows) id table entry in ground arith
  ]

  pub base_row_lem :
      (id : DirectoryId) (d : Directory)
      → get_directory (entries rows) id settings ≡ ok d
      → base_row (build_options settings) id rows ≡ d ∷ []
  base_row_lem id d found =
      select_by_id (is_visible (build_options settings)) id rows table
      ∙ rw (visible_lem id d found) refl

  -- A round of the query, from one row: its parent, or nothing above a root.
  join_parents_up :
      (d q : Directory) (p : DirectoryId)
      → d.parent ≡ some p
      → get_directory (entries rows) p settings ≡ ok q
      → join_parents (build_options settings) rows (d ∷ []) ≡ q ∷ []
  unfolding sort_by_created sort_loop sink
  join_parents_up d q p up found =
      let one : select (λ c. is_parent_of (d ∷ []) c && is_visible (build_options settings) c) rows
          ≡ q ∷ [] =
        select_ext (λ c. is_parent_of (d ∷ []) c && is_visible (build_options settings) c)
          (λ c. c.id == p && is_visible (build_options settings) c) rows (λ c. ground arith)
        ∙ base_row_lem p q found in
      ap sort_by_created one

  join_parents_top :
      (d : Directory) → d.parent ≡ none → join_parents (build_options settings) rows (d ∷ []) ≡ []
  unfolding sort_by_created sort_loop
  join_parents_top d top = ap sort_by_created (
      select_none (λ c. is_parent_of (d ∷ []) c && is_visible (build_options settings) c) rows
        (λ c. ground arith))

  -- The rows found so far stand no lower than this directory.
  abbrev pub Above : DirectoryId → Rows → Type 0
  Above id found =
      (x : DirectoryId) → has_id x found ≡ true → rank (entries rows) id ≤ rank (entries rows) x

  -- The next one up is new, and stands below them all.
  next_up :
      (id : DirectoryId) (d : Directory) (p : DirectoryId) (q : Directory) (found : Rows)
      → get_directory (entries rows) id settings ≡ ok d
      → d.parent ≡ some p
      → get_directory (entries rows) p settings ≡ ok q
      → Above id found
      → (distinct found (q ∷ []) ≡ q ∷ []) × Above p (found ++ q ∷ [])
  unfolding distinct
  next_up id d p q found here up next above =
      let lower = parent_below (entries rows) settings id d p table here up in
      let q_id : q.id ≡ p = id-get_directory (entries rows) settings p q table next in
      let at_p : rank (entries rows) q.id ≡ rank (entries rows) p = ap (rank (entries rows)) q_id in
      let new : has_id q.id found ≡ false = ground (arith, above q.id) in
      (
        rw (new, distinct) refl,
        λ x there. elim (Bool-cases (q.id == x)) [
          | inl same ↦
              let e : rank (entries rows) q.id ≡ rank (entries rows) x =
                ap (rank (entries rows)) ((==_iff q.id x).0 same) in
              omega arith
          | inr other ↦ ground (arith, has_id-append x found (q ∷ []), above x)
        ],
      )

  -- The step climbs from the directories that meet `P`.
  module _ (step : Rows → Rows) (P : DirectoryId → Type 0)
      (climbs : (d : Directory)
        → P d.id
        → step (d ∷ []) ≡ join_parents (build_options settings) rows (d ∷ [])) where
    climbs_from :
        (id : DirectoryId) (d : Directory)
        → get_directory (entries rows) id settings ≡ ok d
        → P id
        → step (d ∷ []) ≡ join_parents (build_options settings) rows (d ∷ [])
    climbs_from id d here h =
        climbs d (subst P (sym (id-get_directory (entries rows) settings id d table here)) h)

    one_up :
        (fuel : ℕ) (id : DirectoryId) (d : Directory) (p : DirectoryId) (q : Directory)
        (found : Rows)
        → get_directory (entries rows) id settings ≡ ok d
        → d.parent ≡ some p
        → get_directory (entries rows) p settings ≡ ok q
        → P id
        → Above id found
        → rounds (suc fuel) step found (d ∷ []) ≡ rounds fuel step (found ++ q ∷ []) (q ∷ [])
    one_up fuel id d p q found here up next h above = rounds_step fuel step found d [] (q ∷ []) (
        ap (distinct found) (climbs_from id d here h ∙ join_parents_up d q p up next)
        ∙ (next_up id d p q found here up next above).0)

    pub rounds-Lineage :
        {id : DirectoryId} {ids : List DirectoryId} {above : List Directory}
        → Lineage (entries rows) settings id ids above
        → (fuel : ℕ) (d : Directory) (found : Rows)
        → get_directory (entries rows) id settings ≡ ok d
        → P id
        → All P ids
        → Above id found
        → length ids < fuel
        → rounds fuel step found (d ∷ []) ≡ ok (found ++ above)
    rounds-Lineage line zero d found here h hs above k = absurd (omega arith)
    rounds-Lineage (root {id = id} {d = c} there top) (suc fuel) d found here h hs above k =
        let same : c ≡ d = ground arith in
        let nothing : step (d ∷ []) ≡ [] =
          climbs_from id d here h ∙ join_parents_top d (ground arith) in
        rounds_end step d found fuel nothing ∙ ap ok (sym (append-nil found))
    rounds-Lineage (child {id = id} {d = c} {p = p} {q = q} {above = rest} there up next line)
          (suc fuel) d found here h (h', hs) above k =
        let same : c ≡ d = ground arith in
        let up' : d.parent ≡ some p = ground arith in
        one_up fuel id d p q found here up' next h above
        ∙ rounds-Lineage line fuel q (found ++ q ∷ []) next h' hs
            (next_up id d p q found here up' next above).1 (omega arith)
        ∙ rw (append_assoc found (q ∷ []) rest) refl

  -- The step of the climb that stops at the ancestor.
  abbrev pub step_until : DirectoryId → Rows → Rows
  step_until ancestor found = join_parents (build_options settings) rows (except ancestor found)

  pub climbs_below :
      (ancestor : DirectoryId) (d : Directory)
      → d.id ≢ ancestor
      → step_until ancestor (d ∷ []) ≡ join_parents (build_options settings) rows (d ∷ [])
  climbs_below ancestor d other =
      let e : except ancestor (d ∷ []) ≡ d ∷ [] = ground (arith, ==_iff d.id ancestor) in
      ap (join_parents (build_options settings) rows) e

  -- With the ancestor above it the climb gives the line up to the ancestor.
  module _ (top : Directory) (ancestor : DirectoryId)
      (at_top : get_directory (entries rows) ancestor settings ≡ ok top) where
    stops : step_until ancestor (top ∷ []) ≡ []
    unfolding sort_by_created sort_loop
    stops =
        let is_id = id-get_directory (entries rows) settings ancestor top table at_top in
        let e : except ancestor (top ∷ []) ≡ [] = ground (arith, ==_iff top.id ancestor) in
        rw e (
          ap sort_by_created (
            select_none (λ c. is_parent_of [] c && is_visible (build_options settings) c) rows
              (λ c. ground arith)))

    pub rounds-LineageUntil :
        {id : DirectoryId} {ids : List DirectoryId} {above : List Directory}
        → LineageUntil (entries rows) settings top ancestor id ids above
        → (fuel : ℕ) (d : Directory) (found : Rows)
        → get_directory (entries rows) id settings ≡ ok d
        → id ≢ ancestor
        → Above id found
        → length ids < fuel
        → rounds fuel (step_until ancestor) found (d ∷ []) ≡ ok (found ++ above)
    rounds-LineageUntil line zero d found here other above k = absurd (omega arith)
    rounds-LineageUntil (last {id = id} {d = c} there up) (suc zero) d found here other above k =
        absurd (omega arith)
    rounds-LineageUntil (last {id = id} {d = c} there up) (suc (suc fuel)) d found here other above
          k =
        let same : c ≡ d = ground arith in
        one_up (step_until ancestor) (λ x. x ≢ ancestor) (climbs_below ancestor) (suc fuel) id d
          ancestor top found here (ground arith) at_top other above
        ∙ rounds_end (step_until ancestor) top (found ++ top ∷ []) fuel stops
    rounds-LineageUntil
          (below {id = id} {d = c} {p = p} {q = q} {above = rest} there up off next line) (suc fuel)
          d found here other above k =
        let same : c ≡ d = ground arith in
        let up' : d.parent ≡ some p = ground arith in
        one_up (step_until ancestor) (λ x. x ≢ ancestor) (climbs_below ancestor) fuel id d p q found
          here up' next other above
        ∙ rounds-LineageUntil line fuel q (found ++ q ∷ []) next off
            (next_up id d p q found here up' next above).1 (omega arith)
        ∙ rw (append_assoc found (q ∷ []) rest) refl
