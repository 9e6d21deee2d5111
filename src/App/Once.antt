-- ===== src/App/Once.antt =====
-- What the reconciler is told over a run of the controller, beside the table of tracked
-- directories.
use fertilesoil.Base.{
  ◌≡◌, Bool, true, false, not, ◌&&◌, none, some, refl, List, [], ◌∷◌, ◌++◌, ◌==◌, if◌then◌else◌,
  is_some, is_none, All, String, Outcome, ok, err, err_with, panic, diverge, Action, lift, ◌>>=◌,
  arith, Bool-cases, Option-cases, inl, inr, count, count-append,
}
use fertilesoil.Api.{
  DirectoryId, Time, Directory, is_deleted, EventType, create, delete, DirectoryEvent,
}
use fertilesoil.App.SqlStorage.{
  Rows, Fault, succeeds, refused, unread, cut_off, Db, find_row, is_directory_tracked,
  is_directory_info_updated, create_directory, delete_rows, delete_directory,
}
use fertilesoil.App.Controller.{
  Controller, World, event_of, is_create, with_context, on_store, persist_directory,
}
use fertilesoil.App.Tracking.{
  HasKeys, is_live_row, affected_rows, find_row-delete_rows, delete_rows-HasKeys,
}
use fertilesoil.App.Events.{with_sql}

abbrev pub is_delete : EventType → Bool
is_delete delete = true
is_delete _ = false

-- The event tells of the creation, or the deletion, of this id.
abbrev pub creates : DirectoryId → DirectoryEvent → Bool
creates x ev = is_create ev.event_type && ev.directory.id == x

abbrev pub deletes : DirectoryId → DirectoryEvent → Bool
deletes x ev = is_delete ev.event_type && ev.directory.id == x

-- The row is there and marked as deleted.
abbrev pub is_deleted_row : DirectoryId → Rows → Bool
is_deleted_row x rows = elim (find_row x rows) [ none ↦ false | some at ↦ is_some at ]

-- For each id the events hold one creation if the table has its row, and none if not; and one
-- deletion if the row is marked as deleted, and none if not.
abbrev pub Announced : World Db → Type 0
Announced (db, seen) =
    HasKeys db.rows
    × ((x : DirectoryId)
        → (count (creates x) seen ≡ (if is_some (find_row x db.rows) then 1 else 0))
          × (count (deletes x) seen ≡ (if is_deleted_row x db.rows then 1 else 0)))

abbrev is_read : Fault → Bool
is_read succeeds = true
is_read (refused e) = true
is_read (unread e) = false
is_read (cut_off e) = false

-- No statement runs whose answer cannot be read.
abbrev pub AllRead : List Fault → Type 0
AllRead faults = All (λ fault. is_read fault ≡ true) faults

abbrev pub Sound : World Db → Type 0
Sound w = AllRead w.0.faults × Announced w

-- A call keeps the property, however it ends.
pub record Kept {A : Type 0} (m : Action (World Db) A) : Type 0 where
  pub keeps : (w : World Db) → Sound w → Sound (m w).1

module _ {A B : Type 0} (f : A → Action (World Db) B) (later : (a : A) → Kept (f a)) where
  lift_keeps : (r : Outcome A) (w : World Db) → Sound w → Sound ((lift r >>= f) w).1
  lift_keeps (ok a) w h = (later a).keeps w h
  lift_keeps (err e) w h = h
  lift_keeps (err_with a e) w h = h
  lift_keeps (panic p) w h = h
  lift_keeps diverge w h = h

  pub lift-Kept : (r : Outcome A) → Kept (lift r >>= f)
  lift-Kept r = record { keeps = lift_keeps r }

  pub bind-Kept : (m : Action (World Db) A) → Kept m → Kept (m >>= f)
  bind-Kept m first = record { keeps = λ w h. lift_keeps (m w).0 (m w).1 (first.keeps w h) }

context_keeps :
    {A : Type 0} (text : String) (r : Outcome A) (w : World Db)
    → Sound w
    → Sound (with_context text (lift r) w).1
context_keeps text (ok a) w h = h
context_keeps text (err e) w h = h
context_keeps text (err_with a e) w h = h
context_keeps text (panic p) w h = h
context_keeps text diverge w h = h

pub with_context-Kept :
    {A : Type 0} (text : String) (m : Action (World Db) A) → Kept m → Kept (with_context text m)
with_context-Kept text m inner = record {
  keeps = λ w h. context_keeps text (m w).0 (m w).1 (inner.keeps w h);
}

pub lift_only-Kept : {A : Type 0} (r : Outcome A) → Kept (lift r)
lift_only-Kept r = record { keeps = λ w h. h }

world_kept : (w w' : World Db) → w ≡ w' → Sound w' → Sound w
world_kept w w' e h = rw e h

-- The faults of the statements after the next one.
abbrev later_faults : List Fault → List Fault
later_faults [] = []
later_faults (fault ∷ later) = later

-- The database refuses the next statement.
abbrev is_refused : List Fault → Bool
is_refused (refused e ∷ later) = true
is_refused (succeeds ∷ later) = false
is_refused (unread e ∷ later) = false
is_refused (cut_off e ∷ later) = false
is_refused [] = false

later_faults-AllRead : (faults : List Fault) → AllRead faults → AllRead (later_faults faults)
later_faults-AllRead [] read = tt
later_faults-AllRead (fault ∷ later) (h, read) = read

module _ (clock now : Time) (c : Controller Db) (d : Directory) (rows : Rows)
    (seen : List DirectoryEvent) where
  abbrev after : List Fault → World Db
  after faults =
      (persist_directory (with_sql clock c) now d (record { rows = rows; faults = faults }, seen)).1

  -- What a creation does to the world.
  created_world :
      (faults : List Fault)
      → AllRead faults
      → is_deleted d ≡ false
      → after faults ≡ (
          if not (is_refused faults) && is_none (find_row d.id rows)
          then (
            record { rows = (d.id, none) ∷ rows; faults = later_faults faults },
            seen ++ event_of create now d ∷ [],
          )
          else (record { rows = rows; faults = later_faults faults }, seen))
  unfolding persist_directory create_directory
  created_world [] read live = ground arith
  created_world (succeeds ∷ later) read live = ground arith
  created_world (refused e ∷ later) read live = ground arith
  created_world (unread e ∷ later) (bad, read) live = absurd (cc)
  created_world (cut_off e ∷ later) (bad, read) live = absurd (cc)

  created_told :
      (later : List Fault)
      → HasKeys rows
      → Announced (record { rows = rows; faults = later }, seen)
      → find_row d.id rows ≡ none
      → Announced (
        record { rows = (d.id, none) ∷ rows; faults = later },
        seen ++ event_of create now d ∷ [],
      )
  created_told later keys (same_keys, told) new = (
    (new, keys),
    λ x. ground (
      arith,
      told x,
      count-append (creates x) seen (event_of create now d ∷ []),
      count-append (deletes x) seen (event_of create now d ∷ []),
    ),
  )

  creation_kept :
      (faults : List Fault)
      → is_deleted d ≡ false
      → Sound (record { rows = rows; faults = faults }, seen)
      → Sound (after faults)
  creation_kept faults live (read, h) =
      let later = later_faults faults in
      let read' = later_faults-AllRead faults read in
      let same = (λ (e : after faults ≡ (record { rows = rows; faults = later }, seen)).
        world_kept (after faults) (record { rows = rows; faults = later }, seen) e (read', h)) in
      elim (Bool-cases (is_refused faults)) [
        | inl down ↦ same (ground (arith, created_world faults read live))
        | inr up ↦ elim (Option-cases (find_row d.id rows)) [
          | inl new ↦
              world_kept (after faults)
                (
                  record { rows = (d.id, none) ∷ rows; faults = later },
                  seen ++ event_of create now d ∷ [],
                )
                (ground (arith, created_world faults read live))
                (read', created_told later h.0 h new)
          | inr (at, old) ↦ same (ground (arith, created_world faults read live))
        ]
      ]

  -- What a deletion does to it.
  deleted_world :
      (faults : List Fault)
      → AllRead faults
      → is_deleted d ≡ true
      → HasKeys rows
      → after faults ≡ (
          if is_refused faults
          then (record { rows = rows; faults = later_faults faults }, seen)
          else (
            record { rows = (delete_rows clock d.id rows).1; faults = later_faults faults },
            (if is_live_row d.id rows then seen ++ event_of delete now d ∷ [] else seen),
          ))
  unfolding persist_directory delete_directory
  deleted_world [] read gone keys = ground (arith, affected_rows clock d.id rows keys)
  deleted_world (succeeds ∷ later) read gone keys =
      ground (arith, affected_rows clock d.id rows keys)
  deleted_world (refused e ∷ later) read gone keys = ground arith
  deleted_world (unread e ∷ later) (bad, read) gone keys = absurd (cc)
  deleted_world (cut_off e ∷ later) (bad, read) gone keys = absurd (cc)

  deleted_told :
      (later : List Fault)
      → Announced (record { rows = rows; faults = later }, seen)
      → Announced (
        record { rows = (delete_rows clock d.id rows).1; faults = later },
        (if is_live_row d.id rows then seen ++ event_of delete now d ∷ [] else seen),
      )
  deleted_told later (keys, told) = (
    delete_rows-HasKeys clock d.id rows keys,
    λ x. ground (
      arith,
      told x,
      find_row-delete_rows clock d.id x rows keys,
      count-append (creates x) seen (event_of delete now d ∷ []),
      count-append (deletes x) seen (event_of delete now d ∷ []),
    ),
  )

  deletion_kept :
      (faults : List Fault)
      → is_deleted d ≡ true
      → Sound (record { rows = rows; faults = faults }, seen)
      → Sound (after faults)
  deletion_kept faults gone (read, h) =
      let read' = later_faults-AllRead faults read in
      elim (Bool-cases (is_refused faults)) [
        | inl down ↦
            world_kept (after faults) (record { rows = rows; faults = later_faults faults }, seen)
              (ground (arith, deleted_world faults read gone h.0)) (read', h)
        | inr up ↦
            world_kept (after faults)
              (
                record { rows = (delete_rows clock d.id rows).1; faults = later_faults faults },
                (if is_live_row d.id rows then seen ++ event_of delete now d ∷ [] else seen),
              )
              (ground (arith, deleted_world faults read gone h.0))
              (read', deleted_told (later_faults faults) h)
      ]

  either_way :
      (faults : List Fault)
      → Sound (record { rows = rows; faults = faults }, seen)
      → Sound (after faults)
  either_way faults h = elim (Bool-cases (is_deleted d)) [
    | inl gone ↦ deletion_kept faults gone h
    | inr live ↦ creation_kept faults live h
  ]

pub persist-Kept :
    (clock now : Time) (c : Controller Db) (d : Directory)
    → Kept (persist_directory (with_sql clock c) now d)
persist-Kept clock now c d = record {
  keeps = λ w h. either_way clock now c d w.0.rows w.1 w.0.faults h;
}

-- A call of the table that only reads leaves the rows, and takes up the next faults.
is_directory_tracked_same :
    (id : DirectoryId) (rows : Rows) (faults : List Fault)
    → (is_directory_tracked id (record { rows = rows; faults = faults })).1
      ≡ record { rows = rows; faults = later_faults faults }
unfolding is_directory_tracked
is_directory_tracked_same id rows [] = refl
is_directory_tracked_same id rows (succeeds ∷ later) = refl
is_directory_tracked_same id rows (refused e ∷ later) = refl
is_directory_tracked_same id rows (unread e ∷ later) = refl
is_directory_tracked_same id rows (cut_off e ∷ later) = refl

-- IsDirectoryInfoUpdated makes one statement, or two.
is_directory_info_updated_same :
    (d : Directory) (rows : Rows) (faults : List Fault)
    → AllRead faults
    → ((is_directory_info_updated d (record { rows = rows; faults = faults })).1.rows ≡ rows)
      × AllRead (is_directory_info_updated d (record { rows = rows; faults = faults })).1.faults
unfolding is_directory_info_updated is_directory_tracked
is_directory_info_updated_same d rows [] read = elim (Bool-cases (is_some (find_row d.id rows))) [
  | inl tracked ↦ rw tracked (refl, tt)
  | inr untracked ↦ rw untracked (refl, tt)
]
is_directory_info_updated_same d rows (succeeds ∷ []) read =
    elim (Bool-cases (is_some (find_row d.id rows))) [
      | inl tracked ↦ rw tracked (refl, tt)
      | inr untracked ↦ rw untracked (refl, tt)
    ]
is_directory_info_updated_same d rows (succeeds ∷ succeeds ∷ later) (h, (k, read)) =
    elim (Bool-cases (is_some (find_row d.id rows))) [
      | inl tracked ↦ rw tracked (refl, read)
      | inr untracked ↦ rw untracked (refl, (k, read))
    ]
is_directory_info_updated_same d rows (succeeds ∷ refused e ∷ later) (h, (k, read)) =
    elim (Bool-cases (is_some (find_row d.id rows))) [
      | inl tracked ↦ rw tracked (refl, read)
      | inr untracked ↦ rw untracked (refl, (k, read))
    ]
is_directory_info_updated_same d rows (succeeds ∷ unread e ∷ later) (h, (bad, read)) = absurd (cc)
is_directory_info_updated_same d rows (succeeds ∷ cut_off e ∷ later) (h, (bad, read)) = absurd (cc)
is_directory_info_updated_same d rows (refused e ∷ later) (h, read) = (refl, read)
is_directory_info_updated_same d rows (unread e ∷ later) (bad, read) = absurd (cc)
is_directory_info_updated_same d rows (cut_off e ∷ later) (bad, read) = absurd (cc)

pub tracked-Kept : (id : DirectoryId) → Kept (on_store (is_directory_tracked id))
tracked-Kept id = record {
  keeps = λ w h.
      rw (is_directory_tracked_same id w.0.rows w.0.faults)
        (later_faults-AllRead w.0.faults h.0, h.1);
}

updated_world :
    (db db' : Db) (seen : List DirectoryEvent)
    → (db'.rows ≡ db.rows) × AllRead db'.faults
    → Announced (db, seen)
    → Sound (db', seen)
updated_world db db' seen (same, read) h = (read, rw same h)

pub updated-Kept : (d : Directory) → Kept (on_store (is_directory_info_updated d))
updated-Kept d = record {
  keeps = λ w h.
      updated_world w.0 (is_directory_info_updated d w.0).1 w.1
        (is_directory_info_updated_same d w.0.rows w.0.faults h.0) h.1;
}
