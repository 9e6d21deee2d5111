-- ===== src/Storage/Crdb/Children.antt =====
-- GetChildren of the CockroachDB driver.
use fertilesoil.Base.{
  suc, ◌+◌, ◌≤◌, ◌<◌, ◌≡◌, refl, sym, ◌∙◌, Bool, ◌&&◌, none, List, [], ◌∷◌, map, length, arith,
  count, select, SameItems, count-select, count_ext, length_of_SameItems, ok, inl, inr,
  Option-cases,
}
use fertilesoil.Base.Int.{int_half}
use fertilesoil.Api.{DirectoryId, Directory}
use fertilesoil.Storage.Options.{Options, Setting, build_options}
use fertilesoil.Storage.Paging.Laws.{page_of, size_of, skipped, window, window-map}
use fertilesoil.Storage.Memory.Read.{is_visible}
use fertilesoil.Storage.Memory.Tree.{directories}
use fertilesoil.Storage.Memory.Listing.{sort_by_created-SameItems, length-select-le}
use fertilesoil.Storage.Memory.Walk.{is_linked}
use fertilesoil.Storage.Memory.Children.{is_listed_child, listing-SameItems}
use fertilesoil.Storage.Crdb.Table.{Rows, Db}
use fertilesoil.Storage.Crdb.Recursive.{base_row, join_children, parent_among, select_children}
use fertilesoil.Storage.Crdb.Driver.{Driver, get_directory, get_children}
use fertilesoil.Storage.Crdb.Entries.{entries, IsTable, directories-entries}
use fertilesoil.Storage.Crdb.Chunk.{chunk_lem}
use fertilesoil.Storage.Crdb.Reads.{view, base_row_found}
use fertilesoil.Storage.Crdb.Rounds.{with_recursive_ends}

module _ (scan : Rows → Rows) (rows : Rows) (visits : SameItems (scan rows) rows)
    (table : IsTable rows) (opts : Options) where
  abbrev pub linked_rows : Rows
  linked_rows = select (is_linked opts) (scan rows)

  pub linked_same : SameItems linked_rows (select (is_linked opts) (directories (entries rows)))
  linked_same p = rw (directories-entries rows) (
      count-select p (is_linked opts) (scan rows)
      ∙ visits (λ d. p d && is_linked opts d)
      ∙ sym (count-select p (is_linked opts) rows))

  pub length-linked-le : length linked_rows ≤ length rows
  length-linked-le = omega (
    arith,
    length-select-le (is_linked opts) (scan rows),
    length_of_SameItems (scan rows) rows visits,
  )

  count-join_children :
      (last : Rows) (p : Directory → Bool)
      → count p (join_children opts (scan rows) last)
        ≡ count (λ d. p d && parent_among last d) linked_rows
  count-join_children last p =
      sort_by_created-SameItems (select (λ d. parent_among last d && is_visible opts d) (scan rows))
        p
      ∙ count-select p (λ d. parent_among last d && is_visible opts d) (scan rows)
      ∙ count_ext (λ d. p d && (parent_among last d && is_visible opts d))
          (λ d. (p d && parent_among last d) && is_linked opts d) (scan rows)
          (λ d. elim (Option-cases d.parent) [
            | inl top ↦ ground arith
            | inr (q, up) ↦ ground arith
          ])
      ∙ sym (count-select (λ d. p d && parent_among last d) (is_linked opts) (scan rows))

  -- From a row that may be seen the query gives that row, and after it each visible descendant as
  -- often as the table holds it.
  select_children_ends :
      (id : DirectoryId) (b : Directory)
      → base_row opts id rows ≡ b ∷ []
      → b.id ≡ id
      → (listing : Rows) × (select_children scan opts id rows ≡ ok (b ∷ listing))
        × SameItems listing (select (is_listed_child (entries rows) opts id) rows)
  unfolding select_children
  select_children_ends id b base is_id =
      let (listing, ends, inv) =
        with_recursive_ends (entries rows) id (is_linked opts) linked_rows table linked_same
          (join_children opts (scan rows)) count-join_children (length rows) b is_id
          length-linked-le in
      (
        listing,
        rw base ends,
        λ p.
            listing-SameItems (entries rows) opts id linked_rows listing table linked_same inv p
            ∙ rw (directories-entries rows) refl,
      )

-- On a table, when the database answers and a scan visits all rows, GetChildren of a directory that
-- GetDirectory finds gives, for a page that ends below 2 ^ 63, the page that the options name of the ids of
-- one listing, which holds each visible descendant as often as the table does.
pub get_children_listing :
    (t : Driver) (scan : Rows → Rows) (db : Db) (id : DirectoryId) (settings : List Setting)
    (b : Directory)
    → db.failing ≡ none
    → IsTable (view t db)
    → SameItems (scan (view t db)) (view t db)
    → get_directory t id settings db ≡ (ok b, db)
    → page_of (build_options settings) < int_half
    → suc (skipped (build_options settings) + size_of (build_options settings)) < int_half
    → (listing : Rows) × SameItems listing
        (select (is_listed_child (entries (view t db)) (build_options settings) id) (view t db))
      × (get_children t scan id settings db
          ≡ (ok (map (λ (d : Directory). d.id) (window (build_options settings) listing)), db))
unfolding get_children
get_children_listing t scan db id settings b up table visits found h k =
    let opts = build_options settings in
    let (base, is_id) = base_row_found t db up table id settings b found in
    let (listing, ends, same) =
      select_children_ends scan (view t db) visits table opts id b base is_id in
    (
      listing,
      same,
      rw up (
          rw ends (
            rw (chunk_lem opts h k b.id (map (λ (d : Directory). d.id) listing))
              (rw (window-map opts (λ (d : Directory). d.id) listing) refl))),
    )
