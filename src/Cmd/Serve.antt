-- ===== src/Cmd/Serve.antt =====
-- The command serve (cmd/serve.go) up to the server that it runs. Connections, the audit log and the
-- JetStream context are foreign: what they answer is in the record `Answers`. The state is the
-- database beside the NATS server.
use fertilesoil.Base.{
  true, Option, some, List, [], ◌∷◌, if◌then◌else◌, String, Outcome, wrap, Action, pure, raise,
  lift, attempt, ◌>>=◌, ◌>>◌,
}
use fertilesoil.Api.{DirectoryEvent, Time}
use fertilesoil.Storage.Interface.{beside}
use fertilesoil.Storage.Notifier.{Wrapper}
use fertilesoil.Storage.Crdb.Table.{Db}
use fertilesoil.Storage.Crdb.Driver.{Surroundings, crdb_driver}
use fertilesoil.Http.Handlers.{is_empty_text}
use fertilesoil.Http.Server.{
  Server, new_server, ServerOption, with_listen, with_unix, with_debug, with_shutdown_timeout,
  with_trusted_proxies, with_server_notifier, with_storage_driver,
}
use fertilesoil.Messaging.Nats.{Jetstream, NatsNotifier, nats_notifier, add_stream}
use fertilesoil.Cmd.Settings.{
  Settings, AuthConfig, Credentials, build_auth_config, driver_of, build_nats_subject,
  nats_credentials, is_memory_storage,
}

pub record Answers (N Bytes : Type 0) : Type 0 where
  pub db_connection : Outcome (Unit {0})
  pub audit_log : String → Outcome (Unit {0})
  pub seed : String → Outcome (Unit {0})
  pub connect : String → Credentials → Outcome (Unit {0})
  pub jetstream : Outcome (Jetstream (Db × N) Bytes)
  pub encode : DirectoryEvent → Option Bytes

module _ {N Bytes : Type 0} where
  -- initNats. logger.Fatal ends the process: an error that nobody looks at.
  unfoldable pub init_nats : Settings → NatsNotifier (Db × N) Bytes → Action (Db × N) (Unit {0})
  init_nats v n =
      if is_empty_text v.stream_name
      then pure tt
      else attempt
          (add_stream n
            (record { name = v.stream_name; subjects = []; in_memory = is_memory_storage v }))
          (λ e. raise (wrap "failed to check or create stream" e)) (λ info. pure tt)

  abbrev pub server_options :
      Settings → NatsNotifier (Db × N) Bytes → Surroundings → Time → List (ServerOption (Db × N))
  server_options v n e now =
      with_listen v.listen
      ∷ with_unix v.unix_socket
      ∷ with_debug v.debug
      ∷ with_shutdown_timeout v.shutdown
      ∷ with_trusted_proxies v.trusted_proxies
      ∷ with_server_notifier (some (nats_notifier n now))
      ∷ with_storage_driver (some (beside (crdb_driver (driver_of v) e)))
      ∷ []

  abbrev pub notifier_of :
      Answers N Bytes → Settings → Jetstream (Db × N) Bytes → NatsNotifier (Db × N) Bytes
  notifier_of foreign v js = record {
    js = js;
    subject_prefix = build_nats_subject v;
    encode = foreign.encode;
  }

  -- The connections that serverRunE opens, one after the other.
  unfoldable pub connections :
      Answers N Bytes → Settings → Action (Db × N) (Jetstream (Db × N) Bytes)
  connections foreign v = do
    lift foreign.db_connection
    attempt (lift (foreign.audit_log v.audit_log_path))
        (λ e. raise (wrap "failed to open audit log file" e)) pure
    credentials ← lift (nats_credentials foreign.seed v)
    lift (foreign.connect v.nats_url credentials)
    lift foreign.jetstream

  -- serverRunE, up to the call of Run.
  unfoldable pub server_run :
      Answers N Bytes
      → Wrapper (Db × N)
      → Surroundings
      → Time
      → Settings
      → Action (Db × N) (Server (Db × N) × AuthConfig)
  unfolding init_nats connections
  server_run foreign retrier e now v = do
    js ← connections foreign v
    init_nats v (notifier_of foreign v js)
    pure (
      new_server true retrier (server_options v (notifier_of foreign v js) e now),
      build_auth_config v,
    )
