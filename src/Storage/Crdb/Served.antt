-- ===== src/Storage/Crdb/Served.antt =====
-- The reading calls of the CockroachDB driver, for the server over it.
use fertilesoil.Base.{
  List, [], ◌∷◌, ◌==◌, String, Bool, Outcome, ok, err, Action, lift, ◌>>=◌, inl, inr, Option-cases,
  Bool-cases, subst, sym, ◌≡◌, bind_ok, bind_err, wrap, arith, if◌then◌else◌,
}
use fertilesoil.Api.{DirectoryId}
use fertilesoil.Storage.Options.{Options, Setting, build_options}
use fertilesoil.Storage.Memory.Delete.{wrap_error}
use fertilesoil.Storage.Crdb.Table.{Rows, Db, query}
use fertilesoil.Storage.Crdb.Recursive.{
  base_row, select_children, select_parents, select_parents_until,
}
use fertilesoil.Storage.Crdb.Driver.{
  Driver, Surroundings, crdb_driver, first_row, answer_ids, select_roots, get_directory,
  get_parents, get_parents_until_ancestor, get_children, list_roots,
}
use fertilesoil.Http.Kept.{then_kept}
use fertilesoil.Http.Keeps.{KeepsReads}

module _ (P : Db → Type 0) where
  -- A query leaves the database as it is, and so does what follows it.
  query_kept :
      {A B : Type 0} (fast : Bool) (text : String) (f : Rows → A) (db : Db) (k : A → Action Db B)
      → P db
      → ((a : A) → P (k a db).1)
      → P ((query fast text f >>= k) db).1
  query_kept fast text f db k h each = elim (Option-cases db.failing) [
    | inl up ↦
        let answered : query fast text f db ≡ (ok (f (if fast then db.follower else db.rows)), db) =
          ground arith in
        subst (λ r. P r.1)
          (sym (
            bind_ok (query fast text f) k db db (f (if fast then db.follower else db.rows))
              answered))
          (each (f (if fast then db.follower else db.rows)))
    | inr (e, down) ↦
        let failed : query fast text f db ≡ (err (wrap text e), db) = ground arith in
        subst (λ r. P r.1) (sym (bind_err (query fast text f) k db db (wrap text e) failed)) h
  ]

  first_row_kept : (rows : Rows) (db : Db) → P db → P (first_row rows db).1
  first_row_kept [] db h = h
  first_row_kept (d ∷ ds) db h = h

  answer_ids_kept : (o : Options) (rows : Rows) (db : Db) → P db → P (answer_ids o rows db).1
  answer_ids_kept o [] db h = h
  answer_ids_kept o (d ∷ ds) db h = h

  module _ (t : Driver) (db : Db) (h : P db) where
    get_directory_kept :
        (id : DirectoryId) (settings : List Setting) → P (get_directory t id settings db).1
    unfolding get_directory
    get_directory_kept id settings =
        query_kept t.fast_reads "error querying directory" (base_row (build_options settings) id) db
          first_row h (λ rows. first_row_kept rows db h)

    ids_kept :
        (text : String) (f : Rows → Outcome Rows) (o : Options)
        → P ((query t.fast_reads text f >>= λ rows. lift rows >>= answer_ids o) db).1
    ids_kept text f o =
        query_kept t.fast_reads text f db (λ rows. lift rows >>= answer_ids o) h
          (λ rows. then_kept P rows db (answer_ids o) h (λ found. answer_ids_kept o found db h))

    get_parents_kept :
        (id : DirectoryId) (settings : List Setting) → P (get_parents t id settings db).1
    unfolding get_parents
    get_parents_kept id settings =
        ids_kept "error querying directory" (select_parents (build_options settings) id)
          (build_options settings)

    get_parents_until_kept :
        (id until : DirectoryId) (settings : List Setting)
        → P (get_parents_until_ancestor t id until settings db).1
    unfolding get_parents_until_ancestor
    get_parents_until_kept id until settings = elim (Bool-cases (id == until)) [
      | inl same ↦ rw same h
      | inr other ↦ rw other (
          ids_kept "error querying directory"
            (select_parents_until (build_options settings) id until) (build_options settings))
    ]

    get_children_kept :
        (scan : Rows → Rows) (id : DirectoryId) (settings : List Setting)
        → P (get_children t scan id settings db).1
    unfolding get_children
    get_children_kept scan id settings =
        ids_kept "error querying directory" (select_children scan (build_options settings) id)
          (build_options settings)

    list_roots_kept :
        (scan : Rows → Rows) (settings : List Setting) → P (list_roots t scan settings db).1
    unfolding list_roots
    list_roots_kept scan settings =
        query_kept t.fast_reads "error querying directory"
          (select_roots scan (build_options settings)) db
          (λ roots. lift (wrap_error "error querying directory" roots)) h (λ roots. h)

-- The reading calls keep every property of the database.
pub crdb_driver-KeepsReads :
    (P : Db → Type 0) (t : Driver) (e : Surroundings) → KeepsReads P (crdb_driver t e)
crdb_driver-KeepsReads P t e = record {
  directory_kept = λ id settings db h. get_directory_kept P t db h id settings;
  parents_kept = λ id settings db h. get_parents_kept P t db h id settings;
  until_kept = λ id until settings db h. get_parents_until_kept P t db h id until settings;
  children_kept = λ id settings db h. get_children_kept P t db h e.scan id settings;
  roots_kept = λ settings db h. list_roots_kept P t db h e.scan settings;
}
