-- ===== src/Messaging/Nats.antt =====
-- The notifier that publishes to NATS, the one that does nothing, and the watcher. The JetStream
-- context, the JSON codec and the answer of a subscription are foreign: the fields of `Jetstream`
-- and arguments.
use fertilesoil.Base.{
  Bool, Option, none, some, List, [], ◌∷◌, ◌++◌, concat, if◌then◌else◌, String, Error, other, wrap,
  Action, pure, raise, attempt,
}
use fertilesoil.Api.{
  Time, Directory, EventType, create, update, delete, delete_hard, DirectoryEvent, api_version,
}
use fertilesoil.Storage.Notifier.{Notifier}

-- nats.StreamConfig, with the storage in memory or in a file.
pub record StreamConfig : Type 0 where
  pub name : String
  pub subjects : List String
  pub in_memory : Bool

-- A JetStream context over the state `S` of the server, with messages of `Bytes`.
pub record Jetstream (S Bytes : Type 0) : Type 0 where
  pub stream_info : String → Action S StreamConfig
  pub add_stream : StreamConfig → Action S StreamConfig
  pub publish : String → Bytes → Action S (Unit {0})
  pub is_stream_not_found : Error → Bool

pub record NatsNotifier (S Bytes : Type 0) : Type 0 where
  pub js : Jetstream S Bytes
  pub subject_prefix : String
  pub encode : DirectoryEvent → Option Bytes

-- `string(evt.Type)`
abbrev pub type_text : EventType → String
type_text create = "create"
type_text update = "update"
type_text delete = "delete"
type_text delete_hard = "deletehard"

abbrev pub get_event : EventType → Time → Directory → DirectoryEvent
get_event type now d = record {
  version = api_version;
  event_type = type;
  time = now;
  directory = d;
}

module _ {S Bytes : Type 0} (n : NatsNotifier S Bytes) where
  -- `n.subjectPrefix + "." + ...`
  abbrev pub subject_of : String → String
  subject_of text = concat (concat n.subject_prefix ".") text

  unfoldable pub publish : DirectoryEvent → Action S (Unit {0})
  publish evt = elim (n.encode evt) [
    | none ↦ raise (wrap "failed encoding event" (other 8))
    | some bytes ↦
        attempt (n.js.publish (subject_of (type_text evt.event_type)) bytes)
          (λ e. raise (wrap "failed to publish event to" e)) pure
  ]

  -- AddStream: a stream that is there is taken as it is; a missing one is made with the subject of all
  -- events.
  unfoldable pub add_stream : StreamConfig → Action S StreamConfig
  add_stream stream =
      attempt (n.js.stream_info stream.name)
        (λ e.
          if n.js.is_stream_not_found e
          then n.js.add_stream (record stream { subjects = stream.subjects ++ subject_of ">" ∷ [] })
          else raise e)
        pure

  -- The notifier; `now` is the reading of the clock in getEvent.
  abbrev pub nats_notifier : Time → Notifier S
  nats_notifier now = record {
    notify_create = λ d. publish (get_event create now d);
    notify_update = λ d. publish (get_event update now d);
    notify_delete = λ d. publish (get_event delete now d);
    notify_delete_hard = λ d. publish (get_event delete_hard now d);
  }

abbrev pub noop_notifier : {S : Type 0} → Notifier S
noop_notifier = record {
  notify_create = λ d. pure tt;
  notify_update = λ d. pure tt;
  notify_delete = λ d. pure tt;
  notify_delete_hard = λ d. pure tt;
}

-- What the goroutine of Watch meets: a message that the connection has decoded, or the end of the
-- context.
pub data Delivered : Type 0 where
  message : DirectoryEvent → Delivered
  cancelled : Delivered

-- What is sent on the channel of events, up to the end of the context.
abbrev pub forwarded : List Delivered → List DirectoryEvent
forwarded [] = []
forwarded (cancelled ∷ rest) = []
forwarded (message e ∷ rest) = e ∷ forwarded rest

-- Watch: the events and the errors that it sends; `failed` is the error of Subscribe.
unfoldable pub watch : Option Error → List Delivered → List DirectoryEvent × List Error
watch none messages = (forwarded messages, [])
watch (some e) messages = ([], wrap "failed to subscribe to subject" e ∷ [])
