-- ===== src/App/Callback.antt =====
-- The storage that calls back (app/v1/callback/callback.go). The callbacks act on the state `S` of
-- the storage.
use fertilesoil.Base.{List, Action, pure, ◌>>=◌, ◌>>◌}
use fertilesoil.Api.{DirectoryId, Directory}
use fertilesoil.App.Interfaces.{AppStorage}

pub record Config (S : Type 0) : Type 0 where
  pub on_create : Directory → Action S (Unit {0})
  pub on_update : Directory → Action S (Unit {0})
  pub on_delete : DirectoryId → Action S (Unit {0})

module _ {S : Type 0} (impl : AppStorage S) (cfg : Config S) where
  unfoldable pub create_directory : Directory → Action S Directory
  create_directory d = do d' ← impl.create_directory d; cfg.on_create d'; pure d'

  unfoldable pub update_directory : Directory → Action S Directory
  update_directory d = do d' ← impl.update_directory d; cfg.on_update d'; pure d'

  unfoldable pub delete_directory : DirectoryId → Action S (List Directory)
  delete_directory id = do cfg.on_delete id; impl.delete_directory id

  -- AppStorageWithCallback as an AppStorage: the two tests are passed through.
  abbrev pub with_callback : AppStorage S
  with_callback = record impl {
    create_directory = create_directory;
    update_directory = update_directory;
    delete_directory = delete_directory;
  }
