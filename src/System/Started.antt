-- ===== src/System/Started.antt =====
-- A run of the controller from an empty table, against the map of the in-memory driver.
use fertilesoil.Base.{
  ℕ, zero, suc, ◌≤◌, ◌<◌, ◌≡◌, refl, ◌∙◌, ap, sym, subst, true, false, Option, none, some, is_some,
  List, [], ◌∷◌, ◌++◌, ==_self, arith, Option-cases, inl, inr, count, length, ok, All, SameItems,
  take, count-all, count-select, String, bind_ok, ◌>>◌,
}
use std.Path.{fun_ext}
use fertilesoil.Base.Int.{int_half}
use fertilesoil.Api.{DirectoryId, Directory, Time, DirectoryEvent}
use fertilesoil.Storage.Options.{build_options}
use fertilesoil.Storage.DirMap.{directory, DirMap, lookup}
use fertilesoil.Storage.Memory.Tree.{IsTree, lookup-IsTree, directories}
use fertilesoil.Storage.Memory.Descendants.{get_children}
use fertilesoil.Storage.Memory.Children.{is_listed_child, get_children_pages}
use fertilesoil.Storage.Memory.Deleted.{ids_of, default_fits, window_default}
use fertilesoil.Storage.Memory.Deletion.{contains}
use fertilesoil.App.Interfaces.{ReadOnlyClient}
use fertilesoil.App.SqlStorage.{Db}
use fertilesoil.App.Controller.{
  Controller, World, initialize_directories, set_ticker, run, run_loop,
}
use fertilesoil.App.Events.{with_sql}
use fertilesoil.App.Once.{AllRead, Announced}
use fertilesoil.App.Runs.{run-Announced}
use fertilesoil.App.Seeding.{Answers, track_all, initialize_directories_rows}
use fertilesoil.System.Tracker.{view}
use fertilesoil.System.Subtree.{in_subtree, subtree, subtree-in}
use fertilesoil.System.Seeded.{LiveBelow, track_all-HasKeys, seeded-subtree, seeded-contains}
use fertilesoil.System.Steps.{State, Reach}
use fertilesoil.System.Mirror.{Follows}
use fertilesoil.System.Within.{Mirrors}
use fertilesoil.System.Smooth.{signals}
use fertilesoil.System.Delivered.{catches_up}
use fertilesoil.Messaging.Nats.{NatsNotifier}

abbrev pub empty_db : Db
empty_db = record { rows = []; faults = [] }

no_faults : AllRead empty_db.faults
no_faults = tt

All-contains :
    (P : DirectoryId → Type 0) (xs : List DirectoryId)
    → ((x : DirectoryId) → contains x xs ≡ true → P x)
    → All P xs
All-contains P [] h = tt
All-contains P (x ∷ xs) h =
    (h x (ground (arith, ==_self x)), All-contains P xs (λ y k. h y (ground arith)))

take_short : {A : Type 0} (n : ℕ) (xs : List A) → length xs ≤ n → take n xs ≡ xs
take_short zero [] h = refl
take_short zero (x ∷ xs) h = absurd (omega arith)
take_short (suc n) [] h = refl
take_short (suc n) (x ∷ xs) h = ap (λ ys. x ∷ ys) (take_short n xs (omega arith))

pair_path : {A B : Type 0} {a a' : A} {b b' : B} → a ≡ a' → b ≡ b' → ◌≡◌ {A = A × B} (a, b) (a', b')
pair_path p q = λ i. (p i, q i)

module _ (c : Controller Db) (answers : Time → ReadOnlyClient) (now : Time)
    (known : c.client ≡ some answers) (accepts : (ev : DirectoryEvent) → c.reconcile ev ≡ ok tt)
    (visit : DirMap → DirMap) (m : DirMap) (visits : SameItems (visit m) m) (tree : IsTree m)
    (small : length m < int_half) (there : is_some (lookup c.base_dir m) ≡ true)
    (live : LiveBelow c.base_dir m)
    (few : count (is_listed_child m (build_options []) c.base_dir) (directories m) ≤ 10)
    (reads : (x : DirectoryId) (d : Directory)
      → lookup x m ≡ some (directory d)
      → d.deleted_at ≡ none
      → (answers now).get_directory x ≡ ok d)
    (lists : (answers now).get_children c.base_dir ≡ get_children visit m c.base_dir []) where
  -- Each id of the subtree is answered by the client.
  within-Answers : (x : DirectoryId) → in_subtree c.base_dir m x ≡ true → Answers (answers now) x
  within-Answers x within = elim (Option-cases (lookup x m)) [
    | inl missing ↦ absurd (ground (arith, subtree-in c.base_dir m x tree))
    | inr (v, found) ↦
        let (d, is_d, id_d) = lookup-IsTree m x tree found in
        let entry : lookup x m ≡ some (directory d) = ground arith in
        let alive = live x d within entry in (d, reads x d entry alive, id_d, ground arith)
  ]

  seeded :
      (ids : List DirectoryId) × (events : List DirectoryEvent) × (initialize_directories
          (with_sql now c)
          now
          (empty_db, [])
        ≡ (ok tt, (record { rows = track_all (c.base_dir ∷ ids) []; faults = [] }, events)))
      × ((x : DirectoryId) → view (track_all (c.base_dir ∷ ids) []) x ≡ subtree c.base_dir m x)
  seeded =
      let (listing, same, sorted, listed) =
        get_children_pages visit m visits tree c.base_dir [] small default_fits.0 default_fits.1 in
      let size : length listing ≤ 10 = omega (
        arith,
        sym (count-all listing)
            ∙ same (λ d. true)
            ∙ count-select (λ d. true) (is_listed_child m (build_options []) c.base_dir)
                (directories m),
      ) in
      let all : (answers now).get_children c.base_dir ≡ ok (ids_of listing) =
        lists
        ∙ listed
        ∙ ap (λ ds. ok (ids_of ds)) (window_default listing ∙ take_short 10 listing size) in
      let tracked = seeded-contains c.base_dir m tree live listing in
      let (events, done) =
        initialize_directories_rows c answers now known accepts empty_db [] (ids_of listing) refl
          (λ x at h. absurd (ground arith)) all
          (All-contains (Answers (answers now)) (c.base_dir ∷ ids_of listing)
            (λ x h. within-Answers x (sym (tracked x there same) ∙ h))) in
      (
        ids_of listing,
        events,
        done,
        λ x. seeded-subtree c.base_dir m tree live listing x there same,
      )

  module _ {Bytes : Type 0} (n : NatsNotifier (DirMap × List Bytes) Bytes)
      (decode : Bytes → Option DirectoryEvent)
      (ordered : (subject : String) (bytes : Bytes) (m : DirMap) (wire : List Bytes)
        → n.js.publish subject bytes (m, wire) ≡ (ok tt, (m, wire ++ bytes ∷ [])))
      (faithful : (ev : DirectoryEvent)
        → (bytes : Bytes) × (n.encode ev ≡ some bytes) × (decode bytes ≡ some ev)) where
    -- A run of the controller from an empty table, against a client that answers from the map of the service as it is
    -- at the start, ends up waiting for more messages, with a table that mirrors the subtree below the base directory
    -- of the map as it is after any creations and deletions that the service has had since, all of whose messages the
    -- run receives; and the reconciler has been handed one creation for each id of the table and one deletion for each
    -- row that is marked as deleted, and none for any other id. At the start the map is a tree of fewer than 2^63 entries, it holds the base directory, every
    -- directory of the subtree is live, and the base directory has at most ten descendants. The draw for the ticker is
    -- good, and the reconciler takes every event. The stream takes every message and keeps their order, and each
    -- decodes to the event that was encoded; new ids are not in use, a new directory is not deleted and its parent is
    -- in the map, and a deletion does not happen at the zero time, on a map of fewer than 2^63 entries.
    pub run-Mirrors :
        (draw : ℕ) (after : World Db) (t : State Bytes)
        → set_ticker (with_sql now c) draw (empty_db, []) ≡ (ok tt, (empty_db, []))
        → initialize_directories (with_sql now c) now (empty_db, []) ≡ (ok tt, after)
        → Reach n decode c false (record { map = m; wire = []; table = after.0; seen = after.1 }) t
        → t.table ≡ after.0
        → t.seen ≡ after.1
        → (w : World Db) × (run (with_sql now c) now draw (signals now decode t.wire) (empty_db, [])
            ≡ (ok false, w))
          × Mirrors c.base_dir t.map w.0.rows
          × Announced w
    unfolding run
    run-Mirrors draw after t ticking done r same_table same_seen =
        let (ids, events, done', shown) = seeded in
        let table : Db = record { rows = track_all (c.base_dir ∷ ids) []; faults = [] } in
        let is_after : after ≡ (table, events) = ap (λ o. o.1) (sym done ∙ done') in
        let first : Follows decode false c.base_dir
            (record { map = m; wire = []; table = after.0; seen = after.1 }) =
          rw is_after (record {
            tree = tree;
            has_base = there;
            keys = track_all-HasKeys (c.base_dir ∷ ids) [] tt;
            up = refl;
            mirror = fun_ext shown;
            smooth = λ quiet. refl;
          }) in
        let (w, looped, mirrors) =
          catches_up n decode ordered faithful c accepts c.base_dir
            (record { map = m; wire = []; table = after.0; seen = after.1 }) t now first r in
        let received = signals now decode t.wire in
        let ran : run (with_sql now c) now draw received (empty_db, []) ≡ (ok false, w) =
          bind_ok (set_ticker (with_sql now c) draw)
            (λ done.
              initialize_directories (with_sql now c) now >> run_loop (with_sql now c) received)
            (empty_db, []) (empty_db, []) tt ticking
          ∙ bind_ok (initialize_directories (with_sql now c) now)
              (λ done. run_loop (with_sql now c) received) (empty_db, []) after tt done
          ∙ ap (λ x. run_loop (with_sql now c) received x)
              (pair_path (sym same_table) (sym same_seen))
          ∙ looped in
        let told =
          run-Announced now c now draw received empty_db [] no_faults (tt, λ x. (refl, refl)) in
        (w, ran, mirrors, subst (λ o. Announced o.1) ran told)
