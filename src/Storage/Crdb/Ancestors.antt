-- ===== src/Storage/Crdb/Ancestors.antt =====
-- What GetParents and GetParentsUntilAncestor of the CockroachDB driver answer.
use fertilesoil.Base.{
  suc, ◌+◌, ◌≤◌, ◌<◌, ◌≡◌, ◌≢◌, refl, sym, ap, ◌∙◌, false, none, List, [], ◌∷◌, map, ◌==◌, length,
  arith, All, ok, ==_iff,
}
use fertilesoil.Base.Int.{int_half}
use fertilesoil.Api.{DirectoryId, Directory}
use fertilesoil.Storage.Options.{Setting, build_options}
use fertilesoil.Storage.Paging.Laws.{page_of, size_of, skipped, window}
use fertilesoil.Storage.Memory.Read.{get_directory}
use fertilesoil.Storage.Memory.Tree.{rank, rank-le}
use fertilesoil.Storage.Memory.Climb.{Lineage, root, child, length-Lineage, Lineage-found}
use fertilesoil.Storage.Memory.Until.{
  LineageUntil, last, below, length-LineageUntil, LineageUntil-found, id-get_directory,
}
use fertilesoil.Storage.Crdb.Table.{Rows, Db}
use fertilesoil.Storage.Crdb.Recursive.{
  with_recursive, rounds, distinct, join_parents, select_parents, select_parents_until,
}
use fertilesoil.Storage.Crdb.Driver.{Driver, get_parents, get_parents_until_ancestor}
use fertilesoil.Storage.Crdb.Entries.{entries, IsTable, length-entries}
use fertilesoil.Storage.Crdb.Chunk.{chunk_lem}
use fertilesoil.Storage.Crdb.Reads.{view}
use fertilesoil.Storage.Crdb.Parents.{
  Above, base_row_lem, rounds-Lineage, rounds-LineageUntil, step_until, climbs_below,
}

every : (ids : List DirectoryId) → All (λ (x : DirectoryId). Unit {0}) ids
every [] = tt
every (x ∷ ids) = (tt, every ids)

module _ (rows : Rows) (settings : List Setting) (table : IsTable rows) (id : DirectoryId)
    (d : Directory) (found : get_directory (entries rows) id settings ≡ ok d) where
  Above-itself : Above rows settings table id (d ∷ [])
  Above-itself x there =
      let e : d.id ≡ x = (==_iff d.id x).0 (ground arith) in
      let is_id = id-get_directory (entries rows) settings id d table found in
      let same : rank (entries rows) id ≡ rank (entries rows) x =
        ap (rank (entries rows)) (sym is_id ∙ e) in
      omega arith

  short :
      (ids : List DirectoryId)
      → length ids ≤ rank (entries rows) id
      → length ids < suc (length rows)
  short ids h = omega (arith, rank-le (entries rows) id, length-entries rows)

  -- The query begins with the directory itself.
  with_base :
      (step : Rows → Rows) (above : Rows)
      → rounds (suc (length rows)) step (d ∷ []) (d ∷ []) ≡ ok (d ∷ above)
      → with_recursive (suc (length rows)) (d ∷ []) step ≡ ok (d ∷ above)
  unfolding with_recursive distinct
  with_base step above h = h

  select_parents_lem :
      (ids : List DirectoryId) (above : Rows)
      → Lineage (entries rows) settings id ids above
      → select_parents (build_options settings) id rows ≡ ok (d ∷ above)
  unfolding select_parents
  select_parents_lem ids above line = rw (base_row_lem rows settings table id d found) (
      with_base (join_parents (build_options settings) rows) above (
        rounds-Lineage rows settings table (join_parents (build_options settings) rows)
          (λ x. Unit {0}) (λ c h. refl) line (suc (length rows)) d (d ∷ []) found tt (every ids)
          Above-itself (short ids (length-Lineage (entries rows) settings table line).0)))

  module _ (ancestor : DirectoryId) (other : id ≢ ancestor) where
    select_until_line :
        (top : Directory) (ids : List DirectoryId) (above : Rows)
        → get_directory (entries rows) ancestor settings ≡ ok top
        → LineageUntil (entries rows) settings top ancestor id ids above
        → select_parents_until (build_options settings) id ancestor rows ≡ ok (d ∷ above)
    unfolding select_parents_until
    select_until_line top ids above at_top line = rw (base_row_lem rows settings table id d found) (
        with_base (step_until rows settings table ancestor) above (
          rounds-LineageUntil rows settings table top ancestor at_top line (suc (length rows)) d
            (d ∷ []) found other Above-itself
            (short ids (length-LineageUntil (entries rows) settings top ancestor table line).0)))

    select_until_absent :
        (ids : List DirectoryId) (above : Rows)
        → Lineage (entries rows) settings id ids above
        → All (λ p. p ≢ ancestor) ids
        → select_parents_until (build_options settings) id ancestor rows ≡ ok (d ∷ above)
    unfolding select_parents_until
    select_until_absent ids above line others = rw (base_row_lem rows settings table id d found) (
        with_base (step_until rows settings table ancestor) above (
          rounds-Lineage rows settings table (step_until rows settings table ancestor)
            (λ x. x ≢ ancestor) (climbs_below rows settings table ancestor) line (suc (length rows))
            d (d ∷ []) found other others Above-itself
            (short ids (length-Lineage (entries rows) settings table line).0)))

module _ (rows : Rows) (settings : List Setting) (table : IsTable rows) where
  ids-Lineage :
      {id : DirectoryId} {ids : List DirectoryId} {above : Rows}
      → Lineage (entries rows) settings id ids above
      → map (λ (c : Directory). c.id) above ≡ ids
  ids-Lineage (root there top) = refl
  ids-Lineage (child {p = p} {q = q} {ids = ids} there up next line) =
      rw (id-get_directory (entries rows) settings p q table next, ids-Lineage line) refl

  ids-LineageUntil :
      (top : Directory) (ancestor : DirectoryId)
      → get_directory (entries rows) ancestor settings ≡ ok top
      → {id : DirectoryId} {ids : List DirectoryId} {above : Rows}
      → LineageUntil (entries rows) settings top ancestor id ids above
      → map (λ (c : Directory). c.id) above ≡ ids
  ids-LineageUntil top ancestor at_top (last there up) =
      rw (id-get_directory (entries rows) settings ancestor top table at_top) refl
  ids-LineageUntil top ancestor at_top (below {p = p} {q = q} there up off next line) =
      rw
        (
          id-get_directory (entries rows) settings p q table next,
          ids-LineageUntil top ancestor at_top line,
        )
        refl

module _ (t : Driver) (settings : List Setting) (db : Db) (id : DirectoryId)
    (up : db.failing ≡ none) (table : IsTable (view t db))
    (h : page_of (build_options settings) < int_half)
    (k : suc (skipped (build_options settings) + size_of (build_options settings)) < int_half) where
  -- On a table, when the database answers, for a page that ends below 2 ^ 63, GetParents of a
  -- directory whose ancestors are all found gives the page that the options name of their ids, from the
  -- parent up to the root.
  pub get_parents_line :
      (ids : List DirectoryId) (above : Rows)
      → Lineage (entries (view t db)) settings id ids above
      → get_parents t id settings db ≡ (ok (window (build_options settings) ids), db)
  unfolding get_parents
  get_parents_line ids above line =
      let (d, found) = Lineage-found (entries (view t db)) settings line in
      rw up (
        rw (select_parents_lem (view t db) settings table id d found ids above line) (
          rw (ids-Lineage (view t db) settings table line)
            (rw (chunk_lem (build_options settings) h k d.id ids) refl)))

  -- On a table, when the database answers, for a page that ends below 2 ^ 63 and another directory
  -- above this one, with all directories up to it found,
  -- GetParentsUntilAncestor gives the page that the options name of the ids from the parent up to
  -- the ancestor.
  pub get_parents_until_line :
      (top : Directory) (ancestor : DirectoryId) (ids : List DirectoryId) (above : Rows)
      → get_directory (entries (view t db)) ancestor settings ≡ ok top
      → id ≢ ancestor
      → LineageUntil (entries (view t db)) settings top ancestor id ids above
      → get_parents_until_ancestor t id ancestor settings db
        ≡ (ok (window (build_options settings) ids), db)
  unfolding get_parents_until_ancestor
  get_parents_until_line top ancestor ids above at_top other line =
      let (d, found) = LineageUntil-found (entries (view t db)) settings top ancestor line in
      let differ : (id == ancestor) ≡ false = ground (arith, ==_iff id ancestor) in
      rw differ (
        rw up (
          rw
            (select_until_line (view t db) settings table id d found ancestor other top ids above
              at_top line)
            (rw (ids-LineageUntil (view t db) settings table top ancestor at_top line)
              (rw (chunk_lem (build_options settings) h k d.id ids) refl))))

  -- On a table, when the database answers, for a page that ends below 2 ^ 63 and a directory whose
  -- ancestors are all found, an ancestor that is neither the directory itself nor above it is not reported by GetParentsUntilAncestor: it answers as GetParents does.
  pub get_parents_until_absent :
      (ancestor : DirectoryId) (ids : List DirectoryId) (above : Rows)
      → id ≢ ancestor
      → Lineage (entries (view t db)) settings id ids above
      → All (λ p. p ≢ ancestor) ids
      → get_parents_until_ancestor t id ancestor settings db ≡ get_parents t id settings db
  unfolding get_parents_until_ancestor
  get_parents_until_absent ancestor ids above other line others =
      let (d, found) = Lineage-found (entries (view t db)) settings line in
      let differ : (id == ancestor) ≡ false = ground (arith, ==_iff id ancestor) in
      rw differ (
        rw up (
          rw
            (select_until_absent (view t db) settings table id d found ancestor other ids above line
              others)
            (rw (ids-Lineage (view t db) settings table line)
              (rw (chunk_lem (build_options settings) h k d.id ids) refl))))
      ∙ sym (get_parents_line ids above line)
