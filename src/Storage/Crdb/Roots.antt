-- ===== src/Storage/Crdb/Roots.antt =====
-- ListRoots of the CockroachDB driver.
use fertilesoil.Base.{
  ℕ, ◌+◌, ◌-◌, ◌*◌, ◌<◌, ◌≡◌, refl, sym, ap, ◌∙◌, true, ◌&&◌, none, List, map, is_none, length,
  count, select, SameItems, arith, ok, if◌then◌else◌, Bool-cases, inl, inr,
}
use fertilesoil.Base.Int.{pos, ◌-ℤ◌, -ℤ_pos, eq_ℤ, int_half, wrap64_pos}
use fertilesoil.Api.{Directory}
use fertilesoil.Storage.Options.{
  Options, Setting, get_page, get_page_size, get_page_offset, build_options,
}
use fertilesoil.Storage.Paging.Laws.{
  page_of, size_of, skipped, window, window-map, get_page_pos, get_page_size_pos,
  get_page_offset_lem,
}
use fertilesoil.Storage.DirMap.{DirMap}
use fertilesoil.Storage.SortSlice.{sort_by_created}
use fertilesoil.Storage.Memory.Read.{is_visible}
use fertilesoil.Storage.Memory.Read
use fertilesoil.Storage.Memory.Listing.{
  sort_by_created-SameItems, sort_by_created-IsSorted, is_listed_root, root_listing,
  list_roots_pages,
}
use fertilesoil.Storage.Memory.Order.{DistinctTimes, sorted_as, select-SameItems}
use fertilesoil.Storage.Crdb.Table.{Rows, Db}
use fertilesoil.Storage.Crdb.Driver.{Driver, limit_offset, select_roots, list_roots}
use fertilesoil.Storage.Crdb.Entries.{entries, IsTable, directories-entries, length-entries}
use fertilesoil.Storage.Crdb.Reads.{view}

eq_ℤ_zero : (n : ℕ) → eq_ℤ (pos n) (pos 0) ≡ true → n ≡ 0
eq_ℤ_zero n h = ground arith

zero_times : (n : ℕ) → n * 0 ≡ 0
zero_times n = omega arith

-- The offset is left out on the first page, where it is 0.
offset_lem :
    (o : Options)
    → page_of o < int_half
    → skipped o < int_half
    → (if eq_ℤ (get_page o -ℤ pos 1) (pos 0) then pos 0 else get_page_offset o) ≡ pos (skipped o)
offset_lem o h k = rw (get_page_pos o).0 (
    rw (-ℤ_pos (page_of o) 1 (get_page_pos o).1)
      (elim (Bool-cases (eq_ℤ (pos (page_of o - 1)) (pos 0))) [
        | inl first ↦
            let one : page_of o - 1 ≡ 0 = eq_ℤ_zero (page_of o - 1) first in
            let zero_before : skipped o ≡ 0 =
              ap (λ n. size_of o * n) one ∙ zero_times (size_of o) in
            rw first (ap pos (sym zero_before))
        | inr later ↦ rw later (get_page_offset_lem o h ∙ wrap64_pos (skipped o) k)
      ]))

limit_offset_lem :
    {A : Type 0} (o : Options) (xs : List A)
    → page_of o < int_half
    → skipped o < int_half
    → limit_offset
        (get_page_size o)
        (if eq_ℤ (get_page o -ℤ pos 1) (pos 0) then pos 0 else get_page_offset o)
        xs
      ≡ ok (window o xs)
limit_offset_lem o xs h k = rw (offset_lem o h k) (rw (get_page_size_pos o).0 refl)

module _ (t : Driver) (scan : Rows → Rows) (db : Db) (settings : List Setting)
    (up : db.failing ≡ none) (h : page_of (build_options settings) < int_half)
    (k : skipped (build_options settings) + size_of (build_options settings) < int_half) where
  list_roots_lem : list_roots t scan settings db ≡ (
    ok (
        map
          (λ (d : Directory). d.id)
          (window (build_options settings) (
            sort_by_created (
              select
                (λ d. is_visible (build_options settings) d && is_none d.parent)
                (scan (view t db)))))),
    db,
  )
  unfolding list_roots select_roots
  list_roots_lem =
      let opts = build_options settings in
      let roots =
        sort_by_created (select (λ d. is_visible opts d && is_none d.parent) (scan (view t db))) in
      rw up (
        rw (limit_offset_lem opts (map (λ (d : Directory). d.id) roots) h (omega arith))
          (rw (window-map opts (λ (d : Directory). d.id) roots) refl))

  -- On a table of fewer than 2^63 rows, when the database answers, for a page that ends below 2^63,
  -- ListRoots gives what the in-memory driver gives on the same directories, in whatever order the scan and
  -- the Range visit them, each once, when no two of the visible roots have the same creation time.
  pub list_roots-agrees :
      (visit : DirMap → DirMap)
      → IsTable (view t db)
      → length (view t db) < int_half
      → SameItems (visit (entries (view t db))) (entries (view t db))
      → SameItems (scan (view t db)) (view t db)
      → DistinctTimes (select (is_listed_root (build_options settings)) (view t db))
      → list_roots t scan settings db ≡ (Read.list_roots visit (entries (view t db)) settings, db)
  list_roots-agrees visit table small visits scans once =
      let opts = build_options settings in
      let roots = select (is_listed_root opts) (view t db) in
      let here = sort_by_created (select (is_listed_root opts) (scan (view t db))) in
      let there = root_listing visit (entries (view t db)) opts in
      let pages =
        list_roots_pages visit (entries (view t db)) settings visits table
          (omega (arith, length-entries (view t db))) h k in
      let like_here : SameItems here roots = (λ p.
        sort_by_created-SameItems (select (is_listed_root opts) (scan (view t db))) p
        ∙ select-SameItems (is_listed_root opts) (scan (view t db)) (view t db) scans p) in
      let like_there : SameItems there roots = (λ p.
        pages.0 p
        ∙ ap (λ ds. count p (select (is_listed_root opts) ds)) (directories-entries (view t db))) in
      let alike : map (λ (d : Directory). d.id) here ≡ map (λ (d : Directory). d.id) there =
        sorted_as here there roots
          (sort_by_created-IsSorted (select (is_listed_root opts) (scan (view t db)))) pages.1
          like_here like_there once in
      list_roots_lem
      ∙ ap (λ ids. (ok ids, db))
          (sym (window-map opts (λ (d : Directory). d.id) here)
            ∙ ap (λ ids. window opts ids) alike
            ∙ window-map opts (λ (d : Directory). d.id) there)
      ∙ ap (λ r. (r, db)) (sym pages.2)
