-- ===== src/Cmd/Settings.antt =====
-- What the command reads of its flags and environment (cmd/serve.go, storage/crdb/utils/utils.go,
-- notifier/nats/utils/utils.go). The values that viper holds are the record `Settings`.
use fertilesoil.Base.{
  ℕ, Bool, not, true, false, List, [], ◌∷◌, ◌++◌, foldl, if◌then◌else◌, String, concat, Outcome, ok,
  err, err_with, panic, diverge, other, wrap, same_text,
}
use fertilesoil.Http.Handlers.{is_empty_text}
use fertilesoil.Storage.Crdb.Driver.{Driver, new_directory_driver}

pub record Settings : Type 0 where
  pub listen : String
  pub unix_socket : String
  pub debug : Bool
  pub shutdown : ℕ
  pub trusted_proxies : List String
  pub read_only : Bool
  pub fast_reads : Bool
  pub nats_url : String
  pub nats_creds : String
  pub nats_nkey : String
  pub subject_prefix : String
  pub stream_name : String
  pub stream_storage : String
  pub audit_log_path : String
  pub oidc_enabled : Bool
  pub oidc_audience : String
  pub oidc_issuer : List String
  pub oidc_jwksuri : List String
  pub oidc_jwks_remote_timeout : ℕ
  pub oidc_role_validation_strategy : String
  pub oidc_roles_claim : String
  pub oidc_username_claim : String

-- RegisterDBArgs: the flags with their defaults.
abbrev pub register_db_args : Settings → Settings
register_db_args v = record v { read_only = false; fast_reads = false }

-- RegisterNATSArgs
abbrev pub register_nats_args : Settings → Settings
register_nats_args v = record v {
  nats_url = "";
  subject_prefix = "infratographer.events";
  stream_name = "fertilesoil";
  stream_storage = "file";
  nats_nkey = "";
  nats_creds = "";
}

-- The flags of init, over what foreign code registers (`debug` and the flags of OIDC). The timeout is in
-- nanoseconds.
abbrev pub init_flags : Settings → Settings
init_flags v = record (register_nats_args (register_db_args v)) {
  listen = ":8080";
  shutdown = 5_000_000_000;
  unix_socket = "";
  trusted_proxies = [];
  audit_log_path = "/app-audit/audit.log";
}

-- ginjwt.AuthConfig
pub record AuthConfig : Type 0 where
  pub enabled : Bool
  pub audience : String
  pub issuer : String
  pub jwks_uri : String
  pub jwks_remote_timeout : ℕ
  pub role_validation_strategy : String
  pub roles_claim : String
  pub username_claim : String

-- `if len(xs) != 0 { x = xs[0] }`
abbrev pub first_text : List String → String
first_text [] = ""
first_text (x ∷ xs) = x

abbrev pub build_auth_config : Settings → AuthConfig
build_auth_config v = record {
  enabled = v.oidc_enabled;
  audience = v.oidc_audience;
  issuer = first_text v.oidc_issuer;
  jwks_uri = first_text v.oidc_jwksuri;
  jwks_remote_timeout = v.oidc_jwks_remote_timeout;
  role_validation_strategy = v.oidc_role_validation_strategy;
  roles_claim = v.oidc_roles_claim;
  username_claim = v.oidc_username_claim;
}

-- WithStorageOptions: WithReadOnly and WithFastReads.
pub data DriverOption : Type 0 where
  with_read_only with_fast_reads : DriverOption

abbrev pub with_storage_options : Settings → List DriverOption
with_storage_options v =
    (if v.read_only then with_read_only ∷ [] else [])
    ++ (if v.fast_reads then with_fast_reads ∷ [] else [])

abbrev pub apply_driver_option : Driver → DriverOption → Driver
apply_driver_option t with_read_only = record t { read_only = true }
apply_driver_option t with_fast_reads = record t { fast_reads = true }

-- NewDirectoryDriver with these options.
abbrev pub driver_of : Settings → Driver
driver_of v = foldl apply_driver_option (new_directory_driver false false) (with_storage_options v)

-- BuildNATSSubject
abbrev pub build_nats_subject : Settings → String
build_nats_subject v = concat (concat v.subject_prefix ".") "directories"

-- The options of the connection that BuildNATSConnFromArgs makes; `seed` is what NkeyOptionFromSeed
-- says of the text.
pub data Credentials : Type 0 where
  user_credentials nkey_option : String → Credentials

abbrev pub nkey_of : String → Outcome (Unit {0}) → Outcome Credentials
nkey_of text (ok a) = ok (nkey_option text)
nkey_of text (err e) = err (wrap "failed to load nkey" e)
nkey_of text (err_with a e) = err (wrap "failed to load nkey" e)
nkey_of text (panic p) = panic p
nkey_of text diverge = diverge

unfoldable pub nats_credentials : (String → Outcome (Unit {0})) → Settings → Outcome Credentials
nats_credentials seed v =
    if not (is_empty_text v.nats_creds)
    then ok (user_credentials v.nats_creds)
    else if not (is_empty_text v.nats_nkey)
    then nkey_of v.nats_nkey (seed v.nats_nkey)
    else err (other 9)

-- natsgo.MemoryStorage or natsgo.FileStorage
abbrev pub is_memory_storage : Settings → Bool
is_memory_storage v = same_text v.stream_storage "memory"
