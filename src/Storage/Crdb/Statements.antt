-- ===== src/Storage/Crdb/Statements.antt =====
-- The statements of the CockroachDB driver, as the theorems on its writes use them.
use fertilesoil.Base.{
  ◌≤◌, ◌≡◌, refl, ◌∙◌, Bool, true, false, not, none, [], ◌∷◌, map, arith, count, select, SameItems,
  count_none, All, All-imp, All-of_count, Outcome, ok, inl, inr, Bool-cases, String,
}
use fertilesoil.Api.{Time, Directory}
use fertilesoil.Storage.Memory.Delete.{mark_deleted}
use fertilesoil.Storage.Crdb.Table.{Rows, Db, execute, set_deleted}
use fertilesoil.Storage.Crdb.Driver.{or_not_found}

pub set_deleted_ext :
    (now : Time) (p q : Directory → Bool) (rows : Rows)
    → All (λ (d : Directory). p d ≡ q d) rows
    → set_deleted now p rows ≡ set_deleted now q rows
set_deleted_ext now p q [] h = refl
set_deleted_ext now p q (d ∷ rows) (here, h) = rw (here, set_deleted_ext now p q rows h) refl

abbrev agree : Bool → Bool → Bool
agree true b = b
agree false b = not b

-- What holds of all rows holds of them in the order of the scan.
pub All-scan :
    (p q : Directory → Bool) (scan : Rows → Rows) (rows : Rows)
    → SameItems (scan rows) rows
    → All (λ (d : Directory). p d ≡ q d) rows
    → All (λ (d : Directory). p d ≡ q d) (scan rows)
All-scan p q scan rows visits h =
    All-imp (λ d. agree (p d) (q d) ≡ true) (λ d. p d ≡ q d) (scan rows) (λ d e. ground arith)
      (All-of_count (λ d. agree (p d) (q d)) (scan rows)
        (visits (λ d. not (agree (p d) (q d)))
          ∙ count_none (λ d. not (agree (p d) (q d))) rows
              (All-imp (λ d. p d ≡ q d) (λ d. not (agree (p d) (q d)) ≡ false) rows
                (λ d e. ground arith) h)))

pub or_not_found_lem :
    (now : Time) (p : Directory → Bool) (rows : Rows) (db : Db)
    → 1 ≤ count p rows
    → or_not_found (map (mark_deleted now) (select p rows)) db
      ≡ (ok (map (mark_deleted now) (select p rows)), db)
or_not_found_lem now p [] db h = absurd (omega arith)
or_not_found_lem now p (d ∷ rows) db h = elim (Bool-cases (p d)) [
  | inl here ↦ rw here refl
  | inr out ↦ rw out (or_not_found_lem now p rows db (ground arith))
]

-- A statement that is carried out.
pub execute_ok :
    {A : Type 0} (text : String) (f : Rows → Outcome A × Rows) (db : Db) (a : A) (rows : Rows)
    → db.failing ≡ none
    → f db.rows ≡ (ok a, rows)
    → execute text f db ≡ (ok a, record db { rows = rows })
execute_ok text f db a rows up e = rw up (rw e refl)
