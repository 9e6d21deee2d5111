-- ===== src/Http/Server.antt =====
-- How the server is put together (NewServer and the options of internal/httpsrv/treemanager/config.go), what
-- it listens on and whether it is ready (internal/httpsrv/common/common.go). The retry wrapper and the
-- answers of the checks are arguments. The options of audit and authentication are left out.
use fertilesoil.Base.{
  lift, panic, nil_dereference, ℕ, Bool, false, ◌||◌, Option, none, some, List, [], ◌∷◌, foldl,
  if◌then◌else◌, is_some, String, Error, map, same_text,
}
use fertilesoil.Storage.Interface.{DirectoryAdmin}
use fertilesoil.Storage.Notifier.{Notifier, Wrapper, NotifierWithStorage, with_notifier}
use fertilesoil.Messaging.Nats.{noop_notifier}
use fertilesoil.Http.Handlers.{is_empty_text}

module _ (S : Type 0) where
  -- A nil driver or listener is none; a listener is known by the address that it shows.
  pub record TreeManagerConfig : Type 0 where
    pub listen : String
    pub unix : String
    pub listener : Option String
    pub debug : Bool
    pub shutdown_timeout : ℕ
    pub notif : Notifier S
    pub storage_driver : Option (DirectoryAdmin S)
    pub trusted_proxies : List String

  pub data ServerOption : Type 0 where
    with_listen : String → ServerOption
    with_listener : Option String → ServerOption
    with_unix : String → ServerOption
    with_debug : Bool → ServerOption
    with_shutdown_timeout : ℕ → ServerOption
    with_server_notifier : Option (Notifier S) → ServerOption
    with_storage_driver : Option (DirectoryAdmin S) → ServerOption
    with_trusted_proxies : List String → ServerOption

  pub record Server : Type 0 where
    pub listen : String
    pub store : NotifierWithStorage S
    pub debug : Bool
    pub shutdown_time : ℕ
    pub listen_unix : String
    pub listener : Option String
    pub trusted_proxies : List String
    pub readiness_checks : List (String × (Option Error → Option Error))

-- dbCheck: a server without a database passes; `ping` is the answer of PingContext.
abbrev pub db_check : Bool → Option Error → Option Error
db_check has_db ping = if has_db then ping else none

-- AddReadinessCheck: `s.readinessChecks[name] = f`.
abbrev pub set_check :
    String
    → (Option Error → Option Error)
    → List (String × (Option Error → Option Error))
    → List (String × (Option Error → Option Error))
set_check name f [] = (name, f) ∷ []
set_check name f ((other, g) ∷ checks) =
    let rest = set_check name f checks in
    if same_text other name then (name, f) ∷ checks else (other, g) ∷ rest

-- What Run serves on.
pub data Listening : Type 0 where
  on_unix : String → Listening
  on_listener : String → Listening
  on_address : String → Listening

module _ {S : Type 0} where
  abbrev pub notifier_or_noop : Option (Notifier S) → Notifier S
  notifier_or_noop none = noop_notifier
  notifier_or_noop (some n) = n

  abbrev pub apply_option : TreeManagerConfig S → ServerOption S → TreeManagerConfig S
  apply_option c (with_listen listen) = record c { listen = listen }
  apply_option c (with_listener listener) = record c { listener = listener }
  apply_option c (with_unix unix) = record c { unix = unix }
  apply_option c (with_debug debug) = record c { debug = debug }
  apply_option c (with_shutdown_timeout t) = record c { shutdown_timeout = t }
  apply_option c (with_server_notifier n) = record c { notif = notifier_or_noop n }
  apply_option c (with_storage_driver d) = record c { storage_driver = d }
  apply_option c (with_trusted_proxies proxies) = record c { trusted_proxies = proxies }

  -- The constants of defaults.go; the timeout is in nanoseconds.
  abbrev pub default_config : TreeManagerConfig S
  default_config = record {
    listen = ":8080";
    unix = "";
    listener = none;
    debug = false;
    shutdown_timeout = 5_000_000_000;
    notif = noop_notifier;
    storage_driver = none;
    trusted_proxies = [];
  }

  -- A call of a nil interface panics.
  abbrev pub nil_driver : DirectoryAdmin S
  nil_driver = record {
    get_directory = λ id settings. lift (panic nil_dereference);
    get_parents = λ id settings. lift (panic nil_dereference);
    get_parents_until_ancestor = λ id until settings. lift (panic nil_dereference);
    get_children = λ id settings. lift (panic nil_dereference);
    list_roots = λ settings. lift (panic nil_dereference);
    create_directory = λ d. lift (panic nil_dereference);
    update_directory = λ d. lift (panic nil_dereference);
    delete_directory = λ id. lift (panic nil_dereference);
    create_root = λ d. lift (panic nil_dereference);
  }

  abbrev pub driver_or_nil : Option (DirectoryAdmin S) → DirectoryAdmin S
  driver_or_nil none = nil_driver
  driver_or_nil (some t) = t

  abbrev pub add_readiness_check : String → (Option Error → Option Error) → Server S → Server S
  add_readiness_check name f s = record s { readiness_checks = set_check name f s.readiness_checks }

  -- NewServer of the package common; `has_db` tells whether the database is not nil.
  abbrev pub common_new_server :
      Bool
      → String
      → NotifierWithStorage S
      → Bool
      → ℕ
      → String
      → Option String
      → List String
      → Server S
  common_new_server has_db listen store debug shutdown_time unix listener trusted_proxies =
      add_readiness_check "database" (db_check has_db) (record {
        listen = listen;
        store = store;
        debug = debug;
        shutdown_time = shutdown_time;
        listen_unix = unix;
        listener = listener;
        trusted_proxies = trusted_proxies;
        readiness_checks = [];
      })

  -- NewServer.
  unfoldable pub new_server : Bool → Wrapper S → List (ServerOption S) → Server S
  new_server has_db retrier opts =
      let cfg = foldl apply_option default_config opts in
      common_new_server has_db cfg.listen
        (with_notifier (driver_or_nil cfg.storage_driver) cfg.notif (retrier ∷ [])) cfg.debug
        cfg.shutdown_timeout cfg.unix cfg.listener cfg.trusted_proxies

  unfoldable pub run_listening : Server S → Listening
  run_listening s =
      if is_empty_text s.listen_unix
      then (elim s.listener [ none ↦ on_address s.listen | some l ↦ on_listener l ])
      else on_unix s.listen_unix

-- readinessCheckHandler: the answers of the checks by name, none for a check that passes, and the
-- status. The map of checks is visited in an order that Go leaves open.
abbrev pub any_failed : List (String × Option Error) → Bool
any_failed [] = false
any_failed ((name, answer) ∷ checks) = is_some answer || any_failed checks

unfoldable pub readiness_check_handler :
    List (String × (Option Error → Option Error)) → Option Error → ℕ × List (String × Option Error)
readiness_check_handler checks ping =
    let answers : List (String × Option Error) = map (λ c. (c.0, c.1 ping)) checks in
    (if any_failed answers then 503 else 200, answers)
