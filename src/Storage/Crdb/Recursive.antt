-- ===== src/Storage/Crdb/Recursive.antt =====
-- WITH RECURSIVE, as the CockroachDB driver uses it: a base query, and a step that is run on the
-- rows of the last round until it gives no new ones. UNION drops a row that is there already; rows
-- of one table are the same when their ids are. The result holds the rounds one after the other:
-- without an ORDER BY around the whole query SQL leaves the order open, and the driver relies on
-- this one. A sort is stable on what the scan gives, and the order of the scan is an argument, so
-- rows of the same time come in any order.
use fertilesoil.Base.{
  ℕ, zero, suc, Bool, true, false, ◌&&◌, none, some, [], ◌∷◌, ◌++◌, ◌==◌, if◌then◌else◌, length,
  select, Outcome, ok, diverge, not,
}
use fertilesoil.Api.{DirectoryId, Directory, has_id}
use fertilesoil.Storage.Options.{Options}
use fertilesoil.Storage.SortSlice.{sort_by_created}
use fertilesoil.Storage.Memory.Read.{is_visible}
use fertilesoil.Storage.Crdb.Table.{Rows}

-- The rows that are new, each once.
unfoldable pub distinct : Rows → Rows → Rows
distinct seen [] = []
distinct seen (d ∷ ds) = elim (has_id d.id seen) [
  | true ↦ distinct seen ds
  | false ↦ d ∷ distinct (d ∷ seen) ds
]

-- `found` is the result so far, its last round apart.
unfoldable pub rounds : ℕ → (Rows → Rows) → Rows → Rows → Outcome Rows
rounds fuel step found [] = ok found
rounds zero step found (r ∷ last) = diverge
rounds (suc fuel) step found (r ∷ last) =
    let new = distinct found (step (r ∷ last)) in rounds fuel step (found ++ new) new

unfoldable pub with_recursive : ℕ → Rows → (Rows → Rows) → Outcome Rows
with_recursive fuel base step = let first = distinct [] base in rounds fuel step first first

-- The parent is one of the rows.
abbrev pub parent_among : Rows → Directory → Bool
parent_among last d = elim d.parent [ none ↦ false | some p ↦ has_id p last ]

-- The id is the parent of one of the rows.
abbrev pub is_parent_of : Rows → Directory → Bool
is_parent_of [] d = false
is_parent_of (r ∷ last) d = elim r.parent [
  | none ↦ is_parent_of last d
  | some p ↦ if d.id == p then true else is_parent_of last d
]

-- The part that the rows of the last round share with those whose id is not the ancestor.
abbrev pub except : DirectoryId → Rows → Rows
except ancestor rows = select (λ r. not (r.id == ancestor)) rows

-- The row with this id, if it is there and may be seen: the id is the primary key.
abbrev pub base_row : Options → DirectoryId → Rows → Rows
base_row opts id rows = select (λ d. d.id == id && is_visible opts d) rows

-- INNER JOIN ... WHERE ... ORDER BY created_at ASC; a row that the join gives twice is dropped by
-- UNION.
abbrev pub join_children : Options → Rows → Rows → Rows
join_children opts rows last =
    sort_by_created (select (λ d. parent_among last d && is_visible opts d) rows)

abbrev pub join_parents : Options → Rows → Rows → Rows
join_parents opts rows last =
    sort_by_created (select (λ d. is_parent_of last d && is_visible opts d) rows)

unfoldable pub select_children : (Rows → Rows) → Options → DirectoryId → Rows → Outcome Rows
select_children scan opts id rows =
    with_recursive (suc (length rows)) (base_row opts id rows) (join_children opts (scan rows))

-- The joins of the next two are by primary key, whatever the order of the scan is.
unfoldable pub select_parents : Options → DirectoryId → Rows → Outcome Rows
select_parents opts id rows =
    with_recursive (suc (length rows)) (base_row opts id rows) (join_parents opts rows)

-- ... WHERE gp.id != $2
unfoldable pub select_parents_until : Options → DirectoryId → DirectoryId → Rows → Outcome Rows
select_parents_until opts id ancestor rows =
    with_recursive (suc (length rows)) (base_row opts id rows)
      (λ last. join_parents opts rows (except ancestor last))
