-- ===== src/Messaging/Delivery.antt =====
-- An event from the storage that makes it to the application that follows.
use fertilesoil.Base.{◌≡◌, true, false, none, some, List, [], ◌∷◌, ◌++◌, ok, is_some, arith, Option}
use fertilesoil.Api.{Time, DirectoryId, Directory, is_deleted, create, DirectoryEvent}
use fertilesoil.Storage.Interface.{DirectoryAdmin}
use fertilesoil.Storage.Notifier.{create_directory, with_notifier, add_wrapper}
use fertilesoil.App.SqlStorage.{Db, find_row}
use fertilesoil.App.Controller.{Controller, event_of, process_incoming_event}
use fertilesoil.App.Events.{concerns, with_sql, with_wrap, process_new}
use fertilesoil.Messaging.Nats.{
  NatsNotifier, subject_of, get_event, type_text, publish, nats_notifier,
}

module _ {S Bytes : Type 0} (n : NatsNotifier S Bytes) where
  -- A message that is encoded and published.
  pub publish_ok :
      (evt : DirectoryEvent) (bytes : Bytes) (s s' : S)
      → n.encode evt ≡ some bytes
      → n.js.publish (subject_of n (type_text evt.event_type)) bytes s ≡ (ok tt, s')
      → publish n evt s ≡ (ok tt, s')
  unfolding publish
  publish_ok evt bytes s s' encoded published = ground (arith, encoded, published)

  -- When the storage creates a directory and NATS takes the encoded event, the call of the notifying
  -- storage succeeds, with the directory that was made; and an application on a database that answers,
  -- which tracks the parent and is given what it decodes from the same bytes, adds the directory to its
  -- table and hands its creation to the reconciler. The directory is live and was not tracked before.
  pub created_is_tracked :
      (t : DirectoryAdmin S) (d made : Directory) (p : DirectoryId) (now later : Time)
      (bytes : Bytes) (decode : Bytes → Option DirectoryEvent) (c : Controller Db) (db : Db)
      (seen : List DirectoryEvent) (s s' s'' : S)
      → t.create_directory d s ≡ (ok made, s')
      → n.encode (get_event create now made) ≡ some bytes
      → n.js.publish (subject_of n "create") bytes s' ≡ (ok tt, s'')
      → decode bytes ≡ some (get_event create now made)
      → db.faults ≡ []
      → made.parent ≡ some p
      → is_some (find_row p db.rows) ≡ true
      → is_deleted made ≡ false
      → find_row made.id db.rows ≡ none
      → (create_directory (with_notifier t (nats_notifier n now) ((λ h. h) ∷ [])) d s
          ≡ (ok made, s''))
        × (process_incoming_event (with_sql later c) later (decode bytes) (db, seen) ≡ (
          with_wrap "error persisting directory" (c.reconcile (event_of create later made)),
          (record db { rows = (made.id, none) ∷ db.rows }, seen ++ event_of create later made ∷ []),
        ))
  unfolding create_directory with_notifier add_wrapper
  created_is_tracked t d made p now later bytes decode c db seen s s' s'' created encoded published
        decoded up parent tracked live new =
      let told = publish_ok (get_event create now made) bytes s' s'' encoded published in
      let on : concerns (get_event create now made) db.rows ≡ true = ground arith in
      (
        ground (arith, created, told),
        rw decoded (process_new c later db up seen (get_event create now made) on live new),
      )
