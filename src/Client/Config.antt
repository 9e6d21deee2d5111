-- ===== src/Client/Config.antt =====
-- The configuration of the client (client/v1/cfg.go). A pointer to a configuration is changed by its
-- methods, so each returns the changed one; `url_parse` is url.Parse.
use fertilesoil.Base.{Option, none, some, String, Outcome, ok}
use fertilesoil.Base.Results.{◌>>=◌}
use fertilesoil.Client.Calls.{Url, Transport, ClientConfig}

module _ {S Bytes : Type 0} where
  abbrev pub new_client_config : ClientConfig S Bytes
  new_client_config = record { manager_url = none; client = none }

  abbrev pub with_manager_url : Option Url → ClientConfig S Bytes → ClientConfig S Bytes
  with_manager_url u c = record c { manager_url = u }

  abbrev pub with_client : Option (Transport S Bytes) → ClientConfig S Bytes → ClientConfig S Bytes
  with_client t c = record c { client = t }

  abbrev pub with_manager_url_from_string :
      (String → Outcome Url) → String → ClientConfig S Bytes → Outcome (ClientConfig S Bytes)
  with_manager_url_from_string url_parse s c = do
    u ← url_parse s
    ok (record c { manager_url = some u })
