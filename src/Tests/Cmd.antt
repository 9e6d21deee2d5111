-- ===== src/Tests/Cmd.antt =====
-- A server that is started in read-only mode, on a NATS server without the stream.
use fertilesoil.Base.{
  ◌≡◌, refl, true, false, none, some, List, [], ◌∷◌, ◌++◌, String, ok, err, other,
}
use fertilesoil.Api.{DirectoryEvent}
use fertilesoil.Storage.Crdb.Table.{Db}
use fertilesoil.Http.Handlers.{post_roots}
use fertilesoil.Http.Server.{Server, new_server}
use fertilesoil.Http.Engine.{directories, new_handler}
use fertilesoil.Messaging.Nats.{StreamConfig, Jetstream, add_stream}
use fertilesoil.Cmd.Settings.{Settings, init_flags, build_auth_config, nats_credentials}
use fertilesoil.Cmd.Serve.{Answers, init_nats, notifier_of, connections, server_run, server_options}
use fertilesoil.Cmd.ReadOnly.{server_run_read_only}
use fertilesoil.Tests.{time_at}
use fertilesoil.Tests.Crdb.{db, surroundings}
use fertilesoil.Tests.Http.{known, on_child}

-- The NATS server holds its streams and the messages.
abbrev Nats : Type 0
Nats = List StreamConfig × List (String × DirectoryEvent)

abbrev stream : Jetstream (Db × Nats) DirectoryEvent
stream = record {
  stream_info = λ name s. (err (other 1), s);
  add_stream = λ config s. (ok config, (s.0, (config ∷ s.1.0, s.1.1)));
  publish = λ subject bytes s. (ok tt, (s.0, (s.1.0, s.1.1 ++ (subject, bytes) ∷ [])));
  is_stream_not_found = λ e. true;
}

abbrev answers : Answers Nats DirectoryEvent
answers = record {
  db_connection = ok tt;
  audit_log = λ path. ok tt;
  seed = λ text. ok tt;
  connect = λ url credentials. ok tt;
  jetstream = ok stream;
  encode = λ ev. some ev;
}

-- What the flags are before init.
abbrev unset : Settings
unset = record {
  listen = "";
  unix_socket = "";
  debug = false;
  shutdown = 0;
  trusted_proxies = [];
  read_only = false;
  fast_reads = false;
  nats_url = "";
  nats_creds = "";
  nats_nkey = "";
  subject_prefix = "";
  stream_name = "";
  stream_storage = "";
  audit_log_path = "";
  oidc_enabled = false;
  oidc_audience = "";
  oidc_issuer = [];
  oidc_jwksuri = [];
  oidc_jwks_remote_timeout = 0;
  oidc_role_validation_strategy = "";
  oidc_roles_claim = "";
  oidc_username_claim = "";
}

abbrev settings : Settings
settings = record (init_flags unset) { read_only = true; nats_creds = "creds" }

abbrev before : Db × Nats
before = (db, ([], []))

-- The stream that initNats makes.
abbrev made : StreamConfig
made = record {
  name = "fertilesoil";
  subjects = "infratographer.events.directories.>" ∷ [];
  in_memory = false;
}

abbrev server : Server (Db × Nats)
server =
    new_server true (λ h. h)
      (server_options settings (notifier_of answers settings stream) surroundings (time_at 50))

started :
    server_run answers (λ h. h) surroundings (time_at 50) settings before
    ≡ (ok (server, build_auth_config settings), (db, (made ∷ [], [])))
unfolding server_run connections init_nats nats_credentials add_stream
started = refl

server_run_read_only_example :
    (new_handler
      (λ r. none)
      known
      none
      server
      (directories post_roots)
      on_child
      (db, (made ∷ [], []))).1
    ≡ (db, (made ∷ [], []))
server_run_read_only_example =
    server_run_read_only answers (λ h. h) surroundings (time_at 50) settings before
      (db, (made ∷ [], [])) server (build_auth_config settings) (λ r. none) known none
      (directories post_roots) on_child (db, (made ∷ [], [])) refl started refl
