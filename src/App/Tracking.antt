-- ===== src/App/Tracking.antt =====
-- The table of tracked directories: what each call of its storage does to it.
use fertilesoil.Base.{
  ◌≡◌, ◌↔◌, refl, ap, ◌∙◌, Bool, true, false, ◌&&◌, Option, none, some, [], ◌∷◌, ◌==◌,
  if◌then◌else◌, is_some, is_none, arith, Bool-cases, Option-cases, inl, inr, ok, err, err_with,
  expected_one_row,
}
use fertilesoil.Api.{DirectoryId, Time, is_zero, Directory}
use fertilesoil.App.SqlStorage.{
  Rows, Db, find_row, compare_deleted_at, is_directory_info_updated, create_directory, scanned,
  delete_rows, delete_directory,
}

-- The primary key: no id stands twice.
abbrev pub HasKeys : Rows → Type 0
HasKeys [] = Unit
HasKeys ((k, at) ∷ rows) = (find_row k rows ≡ none) × HasKeys rows

module _ (db : Db) (up : db.faults ≡ []) where
  -- CreateDirectory adds a row that is not deleted, if there was none with this id; if there was
  -- one it changes nothing and reports that no row was affected.
  pub create_directory_lem :
      (d : Directory)
      → create_directory d db ≡ (
          if is_some (find_row d.id db.rows)
          then (err (expected_one_row 0), db)
          else (ok d, record db { rows = (d.id, none) ∷ db.rows }))
  unfolding create_directory
  create_directory_lem d = elim (Bool-cases (is_some (find_row d.id db.rows))) [
    | inl old ↦ ground arith
    | inr new ↦ ground arith
  ]

  -- It keeps the ids apart.
  create_directory-HasKeys :
      (d : Directory) → HasKeys db.rows → HasKeys (create_directory d db).1.rows
  create_directory-HasKeys d keys = elim (Option-cases (find_row d.id db.rows)) [
    | inl new ↦
        let e : (create_directory d db).1.rows ≡ (d.id, none) ∷ db.rows =
          ground (arith, create_directory_lem d) in
        rw e (new, keys)
    | inr (at, old) ↦
        let e : (create_directory d db).1.rows ≡ db.rows = ground (arith, create_directory_lem d) in
        rw e keys
  ]

-- The row is there and not deleted.
abbrev pub is_live_row : DirectoryId → Rows → Bool
is_live_row id rows = elim (find_row id rows) [ none ↦ false | some at ↦ is_none at ]

delete_rows_absent :
    (now : Time) (id : DirectoryId) (rows : Rows)
    → find_row id rows ≡ none
    → delete_rows now id rows ≡ ([], rows)
unfolding delete_rows
delete_rows_absent now id [] h = refl
delete_rows_absent now id ((k, at) ∷ rows) h = ground (arith, delete_rows_absent now id rows)

-- The rows that the statement returns, by the state of the one row with the id.
pub affected_rows :
    (now : Time) (id : DirectoryId) (rows : Rows)
    → HasKeys rows
    → (delete_rows now id rows).0 ≡ (if is_live_row id rows then scanned id now ∷ [] else [])
unfolding delete_rows
affected_rows now id [] keys = refl
affected_rows now id ((k, at) ∷ rows) (new, keys) = elim (Bool-cases (k == id)) [
  | inl same ↦
      let e : find_row id rows ≡ none = ground arith in
      ground (arith, delete_rows_absent now id rows e)
  | inr other ↦ ground (arith, affected_rows now id rows keys)
]

pub find_row-delete_rows :
    (now : Time) (id x : DirectoryId) (rows : Rows)
    → HasKeys rows
    → find_row x (delete_rows now id rows).1
      ≡ (if x == id && is_live_row id rows then some (some now) else find_row x rows)
unfolding delete_rows
find_row-delete_rows now id x [] keys = ground arith
find_row-delete_rows now id x ((k, at) ∷ rows) (new, keys) = elim (Bool-cases (k == id)) [
  | inl same ↦
      let e : find_row id rows ≡ none = ground arith in
      ground (arith, delete_rows_absent now id rows e)
  | inr other ↦ ground (arith, find_row-delete_rows now id x rows keys)
]

-- The deletion keeps the ids apart.
pub delete_rows-HasKeys :
    (now : Time) (id : DirectoryId) (rows : Rows)
    → HasKeys rows
    → HasKeys (delete_rows now id rows).1
unfolding delete_rows
delete_rows-HasKeys now id [] keys = tt
delete_rows-HasKeys now id ((k, at) ∷ rows) (new, keys) =
    let e : find_row k (delete_rows now id rows).1 ≡ none =
      ground (arith, find_row-delete_rows now id k rows keys) in
    let rest = delete_rows-HasKeys now id rows keys in
    elim (Bool-cases (k == id && is_none at)) [
      | inl hit ↦ rw hit (e, rest)
      | inr miss ↦ rw miss (e, rest)
    ]

pub delete_directory-HasKeys :
    (db : Db) (now : Time) (id : DirectoryId)
    → db.faults ≡ []
    → HasKeys db.rows
    → HasKeys (delete_directory now id db).1.rows
unfolding delete_directory
delete_directory-HasKeys db now id up keys =
    let e : (delete_directory now id db).1.rows ≡ (delete_rows now id db.rows).1 = ground arith in
    rw e (delete_rows-HasKeys now id db.rows keys)

-- The row is deleted at `now`, if it is there and was not, and the others stay: the answer is that
-- one row, and otherwise an error that tells that no row was affected, beside the empty answer.
pub delete_directory_lem :
    (db : Db) (now : Time) (id : DirectoryId)
    → db.faults ≡ []
    → HasKeys db.rows
    → ((delete_directory now id db).0 ≡ (
        if is_live_row id db.rows
        then ok (scanned id now ∷ [])
        else err_with [] (expected_one_row 0)))
      × ((x : DirectoryId)
          → find_row x (delete_directory now id db).1.rows
            ≡ (if x == id && is_live_row id db.rows then some (some now) else find_row x db.rows))
unfolding delete_directory
delete_directory_lem db now id up keys = (
  ground (arith, affected_rows now id db.rows keys),
  λ x.
      ground (arith, affected_rows now id db.rows keys, find_row-delete_rows now id x db.rows keys),
)

-- The time that an upstream deletion stands for: the zero time is none.
abbrev pub nonzero : Option Time → Option Time
nonzero none = none
nonzero (some t) = if is_zero t then none else some t

-- The comparison succeeds exactly when the stored time is the upstream time, zero taken as none.
pub compare_deleted_at_iff :
    (observed expected : Option Time)
    → (compare_deleted_at observed expected ≡ true) ↔ (observed ≡ nonzero expected)
unfolding compare_deleted_at
compare_deleted_at_iff none none = ground arith
compare_deleted_at_iff none (some t) = ground arith
compare_deleted_at_iff (some s) none = ground arith
compare_deleted_at_iff (some s) (some t) = ground arith

info_untracked :
    (db : Db) (d : Directory)
    → db.faults ≡ []
    → find_row d.id db.rows ≡ none
    → (is_directory_info_updated d db).0 ≡ ok false
unfolding is_directory_info_updated
info_untracked db d up absent = ground arith

info_tracked :
    (db : Db) (d : Directory) (at : Option Time)
    → db.faults ≡ []
    → find_row d.id db.rows ≡ some at
    → (is_directory_info_updated d db).0 ≡ ok (compare_deleted_at at d.deleted_at)
unfolding is_directory_info_updated
info_tracked db d at up row = ground arith

-- A directory counts as up to date exactly when it is tracked with its upstream deletion time,
-- the zero time taken as none, on a database that answers.
pub is_directory_info_updated_iff :
    (db : Db) (d : Directory)
    → db.faults ≡ []
    → ((is_directory_info_updated d db).0 ≡ ok true)
      ↔ (find_row d.id db.rows ≡ some (nonzero d.deleted_at))
is_directory_info_updated_iff db d up = elim (Option-cases (find_row d.id db.rows)) [
  | inl absent ↦ (λ h. absurd (ground (arith, info_untracked db d up absent)), λ h. absurd (cc))
  | inr (at, row) ↦
      let (to, from) = compare_deleted_at_iff at d.deleted_at in
      let e = info_tracked db d at up row in
      (λ h. row ∙ ap some (to (ground arith)), λ h. e ∙ ap ok (from (cc)))
]
