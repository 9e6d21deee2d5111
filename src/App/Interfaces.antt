-- ===== src/App/Interfaces.antt =====
-- The interfaces of the application framework (app/v1/storage.go, the writer of
-- storage/interface.go, client/v1/interface.go as the controller uses it).
use fertilesoil.Base.{Bool, List, Outcome, Action}
use fertilesoil.Api.{DirectoryId, Directory}

-- AppStorage, over the state `S` that its methods read and write. UpdateDirectory returns the
-- object that it may have changed.
pub record AppStorage (S : Type 0) : Type 0 where
  pub create_directory : Directory → Action S Directory
  pub update_directory : Directory → Action S Directory
  pub delete_directory : DirectoryId → Action S (List Directory)
  pub is_directory_tracked : DirectoryId → Action S Bool
  pub is_directory_info_updated : Directory → Action S Bool

-- The two calls of the read-only client that the controller makes, with their answers.
pub record ReadOnlyClient : Type 0 where
  pub get_directory : DirectoryId → Outcome Directory
  pub get_children : DirectoryId → Outcome (List DirectoryId)
