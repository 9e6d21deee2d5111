-- ===== src/System/Service.antt =====
-- The tree service: the in-memory driver (storage/memory/memory.go) below the storage that notifies
-- of every write (storage/notifier/notifier.go), with the NATS notifier (notifier/nats/nats.go). Its
-- state is the map and the messages of the stream that have not been delivered.
use fertilesoil.Base.{
  ◌≡◌, refl, ◌∙◌, ap, Bool, true, false, ◌&&◌, Option, none, some, List, [], ◌∷◌, ◌++◌, ok, err,
  Error, arith, String,
}
use mathlib.Core.List.{append-nil, append_assoc}
use fertilesoil.Api.{DirectoryId, Time, Directory, create, update, delete, DirectoryEvent}
use fertilesoil.Storage.Interface.{Surroundings, memory_driver, beside}
use fertilesoil.Storage.DirMap.{DirMap}
use fertilesoil.Storage.Notifier.{
  NotifierWithStorage, with_notifier, add_wrapper, create_directory, create_root, update_directory,
  delete_directory, notify_deleted,
}
use fertilesoil.Messaging.Nats.{NatsNotifier, get_event, publish, nats_notifier}
use fertilesoil.Messaging.Delivery.{publish_ok}
use fertilesoil.System.Tracker.{View, play, is_smooth}

-- The service during one call; the notifications are not retried.
abbrev pub service :
    {Bytes : Type 0}
    → NatsNotifier (DirMap × List Bytes) Bytes
    → Surroundings
    → NotifierWithStorage (DirMap × List Bytes)
service n e = with_notifier (beside (memory_driver e)) (nats_notifier n e.later) ((λ h. h) ∷ [])

-- The events that the messages hold, one after the other; a message that does not decode is none.
abbrev pub play_message : {Bytes : Type 0} → (Bytes → Option DirectoryEvent) → Bytes → View → View
play_message decode b v = elim (decode b) [ none ↦ v | some ev ↦ play ev v ]

abbrev pub play_wire : {Bytes : Type 0} → (Bytes → Option DirectoryEvent) → List Bytes → View → View
play_wire decode [] v = v
play_wire decode (b ∷ bs) v = play_wire decode bs (play_message decode b v)

abbrev pub play_deletions : Time → List Directory → View → View
play_deletions now [] v = v
play_deletions now (d ∷ ds) v = play_deletions now ds (play (get_event delete now d) v)

pub play_message_lem :
    {Bytes : Type 0} (decode : Bytes → Option DirectoryEvent) (b : Bytes) (ev : DirectoryEvent)
    (v : View)
    → decode b ≡ some ev
    → play_message decode b v ≡ play ev v
play_message_lem decode b ev v decoded = rw (decoded, play_message) refl

pub play_message-none :
    {Bytes : Type 0} (decode : Bytes → Option DirectoryEvent) (b : Bytes) (v : View)
    → decode b ≡ none
    → play_message decode b v ≡ v
play_message-none decode b v undecoded = rw (undecoded, play_message) refl

pub play_wire-append :
    {Bytes : Type 0} (decode : Bytes → Option DirectoryEvent) (p q : List Bytes) (v : View)
    → play_wire decode (p ++ q) v ≡ play_wire decode q (play_wire decode p v)
play_wire-append decode [] q v = refl
play_wire-append decode (b ∷ p) q v = play_wire-append decode p q (play_message decode b v)

abbrev pub is_smooth_wire :
    {Bytes : Type 0} → (Bytes → Option DirectoryEvent) → List Bytes → View → Bool
is_smooth_wire decode [] v = true
is_smooth_wire decode (b ∷ bs) v =
    let rest = is_smooth_wire decode bs (play_message decode b v) in
    (elim (decode b) [ none ↦ false | some ev ↦ is_smooth ev v ]) && rest

pub is_smooth_wire-append :
    {Bytes : Type 0} (decode : Bytes → Option DirectoryEvent) (p q : List Bytes) (v : View)
    → is_smooth_wire decode (p ++ q) v
      ≡ (is_smooth_wire decode p v && is_smooth_wire decode q (play_wire decode p v))
is_smooth_wire-append decode [] q v = refl
is_smooth_wire-append decode (b ∷ p) q v =
    ground (arith, is_smooth_wire-append decode p q (play_message decode b v))

abbrev pub is_smooth_deletions : Time → List Directory → View → Bool
is_smooth_deletions now [] v = true
is_smooth_deletions now (d ∷ ds) v =
    let rest = is_smooth_deletions now ds (play (get_event delete now d) v) in
    is_smooth (get_event delete now d) v && rest

pub is_smooth_message_lem :
    {Bytes : Type 0} (decode : Bytes → Option DirectoryEvent) (b : Bytes) (bs : List Bytes)
    (ev : DirectoryEvent) (v : View)
    → decode b ≡ some ev
    → is_smooth_wire decode (b ∷ bs) v ≡ (is_smooth ev v && is_smooth_wire decode bs (play ev v))
is_smooth_message_lem decode b bs ev v decoded = rw (decoded, is_smooth_wire, play_message) refl

module _ {Bytes : Type 0} (n : NatsNotifier (DirMap × List Bytes) Bytes)
    (decode : Bytes → Option DirectoryEvent)
    (ordered : (subject : String) (bytes : Bytes) (m : DirMap) (wire : List Bytes)
      → n.js.publish subject bytes (m, wire) ≡ (ok tt, (m, wire ++ bytes ∷ [])))
    (faithful : (ev : DirectoryEvent)
      → (bytes : Bytes) × (n.encode ev ≡ some bytes) × (decode bytes ≡ some ev)) where
  published :
      (ev : DirectoryEvent) (m : DirMap) (wire : List Bytes)
      → (bytes : Bytes) × (publish n ev (m, wire) ≡ (ok tt, (m, wire ++ bytes ∷ [])))
        × (decode bytes ≡ some ev)
  published ev m wire =
      let (bytes, encoded, decoded) = faithful ev in
      (
        bytes,
        publish_ok n ev bytes (m, wire) (m, wire ++ bytes ∷ []) encoded (ordered _ bytes m wire),
        decoded,
      )

  -- A creation that the driver makes puts one message on the stream.
  pub create_directory_wire :
      (e : Surroundings) (d made : Directory) (m m' : DirMap) (wire : List Bytes)
      → (memory_driver e).create_directory d m ≡ (ok made, m')
      → (bytes : Bytes) × (create_directory (service n e) d (m, wire)
          ≡ (ok made, (m', wire ++ bytes ∷ [])))
        × (decode bytes ≡ some (get_event create e.later made))
  unfolding create_directory with_notifier add_wrapper
  create_directory_wire e d made m m' wire done =
      let (bytes, sent, decoded) = published (get_event create e.later made) m' wire in
      (bytes, ground (arith, done, sent), decoded)

  pub create_root_wire :
      (e : Surroundings) (d made : Directory) (m m' : DirMap) (wire : List Bytes)
      → (memory_driver e).create_root d m ≡ (ok made, m')
      → (bytes : Bytes) × (create_root (service n e) d (m, wire)
          ≡ (ok made, (m', wire ++ bytes ∷ [])))
        × (decode bytes ≡ some (get_event create e.later made))
  unfolding create_root with_notifier add_wrapper
  create_root_wire e d made m m' wire done =
      let (bytes, sent, decoded) = published (get_event create e.later made) m' wire in
      (bytes, ground (arith, done, sent), decoded)

  pub update_directory_wire :
      (e : Surroundings) (d made : Directory) (m m' : DirMap) (wire : List Bytes)
      → (memory_driver e).update_directory d m ≡ (ok made, m')
      → (bytes : Bytes) × (update_directory (service n e) d (m, wire)
          ≡ (ok made, (m', wire ++ bytes ∷ [])))
        × (decode bytes ≡ some (get_event update e.later made))
  unfolding update_directory with_notifier add_wrapper
  update_directory_wire e d made m m' wire done =
      let (bytes, sent, decoded) = published (get_event update e.later made) m' wire in
      (bytes, ground (arith, done, sent), decoded)

  -- One message for each directory that is told of, in their order.
  notify_deleted_wire :
      (e : Surroundings) (affected ds : List Directory) (m : DirMap) (wire : List Bytes)
      → (bs : List Bytes) × (notify_deleted (service n e) affected ds (m, wire)
          ≡ (ok affected, (m, wire ++ bs)))
        × ((v : View)
            → (play_wire decode bs v ≡ play_deletions e.later ds v)
              × (is_smooth_wire decode bs v ≡ is_smooth_deletions e.later ds v))
  unfolding notify_deleted with_notifier add_wrapper
  notify_deleted_wire e affected [] m wire = ([], rw (append-nil wire) refl, λ v. (refl, refl))
  notify_deleted_wire e affected (d ∷ ds) m wire =
      let (bytes, sent, decoded) = published (get_event delete e.later d) m wire in
      let (bs, rest, played) = notify_deleted_wire e affected ds m (wire ++ bytes ∷ []) in
      (
        bytes ∷ bs,
        ground (arith, sent, rest, append_assoc wire (bytes ∷ []) bs),
        λ v.
            let (shown, smooth) = played (play (get_event delete e.later d) v) in
            (
              ap (play_wire decode bs)
                    (play_message_lem decode bytes (get_event delete e.later d) v decoded)
                  ∙ shown,
              is_smooth_message_lem decode bytes bs (get_event delete e.later d) v decoded
                  ∙ ap (λ rest. is_smooth (get_event delete e.later d) v && rest) smooth,
            ),
      )

  pub delete_directory_wire :
      (e : Surroundings) (id : DirectoryId) (affected : List Directory) (m m' : DirMap)
      (wire : List Bytes)
      → (memory_driver e).delete_directory id m ≡ (ok affected, m')
      → (bs : List Bytes) × (delete_directory (service n e) id (m, wire)
          ≡ (ok affected, (m', wire ++ bs)))
        × ((v : View)
            → (play_wire decode bs v ≡ play_deletions e.later affected v)
              × (is_smooth_wire decode bs v ≡ is_smooth_deletions e.later affected v))
  unfolding delete_directory with_notifier add_wrapper
  delete_directory_wire e id affected m m' wire done =
      let (bs, sent, played) = notify_deleted_wire e affected affected m' wire in
      (bs, ground (arith, done, sent), played)

module _ {Bytes : Type 0} (n : NatsNotifier (DirMap × List Bytes) Bytes) (e : Surroundings)
    (m m' : DirMap) (wire : List Bytes) (x : Error) where
  -- A call that fails in the driver tells nobody.
  pub create_directory_failed :
      (d : Directory)
      → (memory_driver e).create_directory d m ≡ (err x, m')
      → create_directory (service n e) d (m, wire) ≡ (err x, (m', wire))
  unfolding create_directory with_notifier add_wrapper
  create_directory_failed d failed = ground (arith, failed)

  pub create_root_failed :
      (d : Directory)
      → (memory_driver e).create_root d m ≡ (err x, m')
      → create_root (service n e) d (m, wire) ≡ (err x, (m', wire))
  unfolding create_root with_notifier add_wrapper
  create_root_failed d failed = ground (arith, failed)

  pub delete_directory_failed :
      (id : DirectoryId)
      → (memory_driver e).delete_directory id m ≡ (err x, m')
      → delete_directory (service n e) id (m, wire) ≡ (err x, (m', wire))
  unfolding delete_directory with_notifier add_wrapper
  delete_directory_failed id failed = ground (arith, failed)
