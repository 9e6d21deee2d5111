-- ===== src/System/Tracker.antt =====
-- What the table of an application says of each id, and how one event changes it. The events are
-- handled by the controller of app/v1/controllerimpl.go on the table of app/v1/sql/storage.go.
use fertilesoil.Base.{
  ◌≡◌, Bool, true, false, not, ◌&&◌, ◌||◌, Option, none, some, List, [], ◌∷◌, ◌==◌, if◌then◌else◌,
  is_some, is_none, arith, Bool-cases, Option-cases, inl, inr,
}
use fertilesoil.Api.{DirectoryId, Time, is_deleted, DirectoryEvent}
use fertilesoil.App.SqlStorage.{Rows, Db, find_row, delete_directory}
use fertilesoil.App.Controller.{Controller, is_create, process_incoming_event}
use fertilesoil.App.Tracking.{HasKeys, delete_directory_lem, delete_directory-HasKeys}
use fertilesoil.App.Events.{
  concerns, with_sql, process_other, process_new, process_tracked, process_deleted,
}

-- For each id: nothing when it is not tracked, and else whether it is marked as deleted.
abbrev pub View : Type 0
View = DirectoryId → Option Bool

abbrev pub view : Rows → View
view rows x = elim (find_row x rows) [ none ↦ none | some at ↦ some (is_some at) ]

abbrev pub has_parent : Option DirectoryId → View → Bool
has_parent none v = false
has_parent (some p) v = is_some (v p)

-- An event of a deleted directory marks its id, if that is tracked. Any other event changes
-- something only when it creates a directory that is not tracked below one that is.
abbrev pub play : DirectoryEvent → View → View
play ev v x =
    if is_deleted ev.directory
    then (if x == ev.directory.id && is_some (v x) then some true else v x)
    else if x == ev.directory.id
        && is_none (v x)
        && is_create ev.event_type
        && has_parent ev.directory.parent v
    then some false
    else v x

-- The event concerns the application.
abbrev pub is_followed : DirectoryEvent → View → Bool
is_followed ev v =
    is_some (v ev.directory.id) || (is_create ev.event_type && has_parent ev.directory.parent v)

-- An event that changes the view, or does not concern the application.
abbrev pub is_smooth : DirectoryEvent → View → Bool
is_smooth ev v = not (is_followed ev v) || (elim (v ev.directory.id) [
  | none ↦ not (is_deleted ev.directory)
  | some gone ↦ is_deleted ev.directory && not gone
])

pub concerns-view :
    (ev : DirectoryEvent) (rows : Rows) → concerns ev rows ≡ is_followed ev (view rows)
concerns-view ev rows = elim (Option-cases ev.directory.parent) [
  | inl root ↦ ground arith
  | inr (p, child) ↦ ground arith
]

-- The deletion leaves a database that answers so.
delete_directory-faults :
    (now : Time) (id : DirectoryId) (db : Db)
    → db.faults ≡ []
    → (delete_directory now id db).1.faults ≡ []
unfolding delete_directory
delete_directory-faults now id db up = ground arith

module _ (c : Controller Db) (now : Time) (db : Db) (up : db.faults ≡ []) (keys : HasKeys db.rows)
    (seen : List DirectoryEvent) (ev : DirectoryEvent) where
  abbrev after : Db
  after = (process_incoming_event (with_sql now c) now (some ev) (db, seen)).1.0

  -- What the handling of an event shows: each id as the event changes it, on a table that stays good.
  abbrev Played : Db → Type 0
  Played db' =
      ((x : DirectoryId) → view db'.rows x ≡ play ev (view db.rows) x)
      × HasKeys db'.rows
      × (db'.faults ≡ [])

  Played-as : (db' : Db) → after ≡ db' → Played db' → Played after
  Played-as db' e h = rw e h

  -- An event that does not concern the application.
  Played-other : concerns ev db.rows ≡ false → Played after
  Played-other off =
      Played-as db (ground (arith, process_other c now db up seen ev off))
        (λ x. ground (arith, concerns-view ev db.rows), keys, up)

  Played-deleted : concerns ev db.rows ≡ true → is_deleted ev.directory ≡ true → Played after
  Played-deleted on gone =
      Played-as (delete_directory now ev.directory.id db).1
        (ground (arith, process_deleted c now db up seen ev keys on gone))
        (
          λ x. ground (arith, (delete_directory_lem db now ev.directory.id up keys).1 x),
          delete_directory-HasKeys db now ev.directory.id up keys,
          delete_directory-faults now ev.directory.id db up,
        )

  Played-tracked :
      is_deleted ev.directory ≡ false
      → is_some (find_row ev.directory.id db.rows) ≡ true
      → Played after
  Played-tracked live old =
      Played-as db (ground (arith, process_tracked c now db up seen ev live old))
        (λ x. ground arith, keys, up)

  Played-new :
      concerns ev db.rows ≡ true
      → is_deleted ev.directory ≡ false
      → find_row ev.directory.id db.rows ≡ none
      → Played after
  Played-new on live new =
      Played-as (record db { rows = (ev.directory.id, none) ∷ db.rows })
        (ground (arith, process_new c now db up seen ev on live new))
        (λ x. ground (arith, concerns-view ev db.rows), (new, keys), up)

  -- On a database that answers, with no id twice in the table, one event changes what the table says of
  -- each id as the view of it tells, and neither makes the database fail nor puts an id twice.
  pub process-play :
      ((x : DirectoryId)
        → view (process_incoming_event (with_sql now c) now (some ev) (db, seen)).1.0.rows x
          ≡ play ev (view db.rows) x)
      × HasKeys (process_incoming_event (with_sql now c) now (some ev) (db, seen)).1.0.rows
      × ((process_incoming_event (with_sql now c) now (some ev) (db, seen)).1.0.faults ≡ [])
  process-play = elim (Bool-cases (concerns ev db.rows)) [
    | inr off ↦ Played-other off
    | inl on ↦ elim (Bool-cases (is_deleted ev.directory)) [
      | inl gone ↦ Played-deleted on gone
      | inr live ↦ elim (Option-cases (find_row ev.directory.id db.rows)) [
        | inl new ↦ Played-new on live new
        | inr (at, old) ↦ Played-tracked live (ground arith)
      ]
    ]
  ]
