-- ===== src/Storage/Crdb/Entries.antt =====
-- The table as the map of the in-memory driver would hold it.
use fertilesoil.Base.{
  ◌≤◌, ◌≡◌, refl, ap, Bool, false, ◌&&◌, Option, none, some, [], ◌∷◌, ◌++◌, ◌==◌, is_some, length,
  arith, count, select, count-append, Bool-cases, inl, inr, ==_self,
}
use fertilesoil.Api.{DirectoryId, Directory, has_id}
use fertilesoil.Storage.DirMap.{directory, DirMap, lookup}
use fertilesoil.Storage.Memory.Tree.{IsTree, directories, lookup_if}
use fertilesoil.Storage.Memory.Walk.{has_id-count}
use fertilesoil.Storage.Crdb.Table.{Rows}
use fertilesoil.Storage.Crdb.Recursive.{distinct}

abbrev pub entries : Rows → DirMap
entries [] = []
entries (d ∷ rows) = (d.id, directory d) ∷ entries rows

-- What the constraints of the table say: the primary key and the foreign key. A new row is put on
-- top, so its parent stands below it.
abbrev pub IsTable : Rows → Type 0
IsTable rows = IsTree (entries rows)

pub directories-entries : (rows : Rows) → directories (entries rows) ≡ rows
directories-entries [] = refl
directories-entries (d ∷ rows) = ap (λ ds. d ∷ ds) (directories-entries rows)

pub length-entries : (rows : Rows) → length (entries rows) ≡ length rows
length-entries [] = refl
length-entries (d ∷ rows) = omega (arith, length-entries rows)

pub has_id-entries :
    (x : DirectoryId) (rows : Rows) → has_id x rows ≡ is_some (lookup x (entries rows))
has_id-entries x [] = refl
has_id-entries x (d ∷ rows) = ground (arith, has_id-entries x rows)

-- A list of what an option holds.
abbrev pub as_list : Option Directory → Rows
as_list none = []
as_list (some d) = d ∷ []

select_absent :
    (t : Directory → Bool) (x : DirectoryId) (rows : Rows)
    → has_id x rows ≡ false
    → select (λ d. d.id == x && t d) rows ≡ []
select_absent t x [] h = refl
select_absent t x (d ∷ rows) h = ground (arith, select_absent t x rows)

-- By its primary key a row is found once or not at all.
pub select_by_id :
    (t : Directory → Bool) (x : DirectoryId) (rows : Rows)
    → IsTable rows
    → select (λ d. d.id == x && t d) rows ≡ as_list (lookup_if t x (entries rows))
select_by_id t x [] tree = refl
select_by_id t x (d ∷ rows) (same, fresh, parent, tree) = elim (Bool-cases (d.id == x)) [
  | inl here ↦
      let absent : has_id x rows ≡ false = ground (arith, has_id-entries x rows) in
      ground (arith, select_absent t x rows absent)
  | inr other ↦ ground (arith, select_by_id t x rows tree)
]

-- No id stands twice.
abbrev pub IsOnce : Rows → Type 0
IsOnce ds = (x : DirectoryId) → count (λ (d : Directory). d.id == x) ds ≤ 1

pub distinct-IsOnce : (seen ds : Rows) → IsOnce (seen ++ ds) → distinct seen ds ≡ ds
unfolding distinct
distinct-IsOnce seen [] h = refl
distinct-IsOnce seen (d ∷ ds) h =
    let new : has_id d.id seen ≡ false = ground (
      arith,
      h d.id,
      count-append (λ (c : Directory). c.id == d.id) seen (d ∷ ds),
      has_id-count d.id seen,
      ==_self d.id,
    ) in
    let rest = distinct-IsOnce (d ∷ seen) ds (λ x. ground (
      arith,
      h x,
      count-append (λ (c : Directory). c.id == x) seen (d ∷ ds),
      count-append (λ (c : Directory). c.id == x) seen ds,
    )) in
    rw (new, distinct) (ap (λ ds. d ∷ ds) rest)
