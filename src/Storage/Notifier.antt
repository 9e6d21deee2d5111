-- ===== src/Storage/Notifier.antt =====
-- The storage that notifies of every write (storage/notifier/notifier.go). Storage and notifier
-- act on one state `S`. The retry wrapper (backoff.Retry of another package) is a parameter.
pub mod Laws
use fertilesoil.Base.{
  Option, none, some, List, [], ◌∷◌, foldl, Outcome, ok, err, err_with, panic, diverge,
  notify_failed, nil_dereference, Action, pure, lift, ◌>>=◌, ◌>>◌,
}
use fertilesoil.Api.{DirectoryId, Directory}
use fertilesoil.Storage.Interface.{DirectoryAdmin}

-- notifier/interface.go
pub record Notifier (S : Type 0) : Type 0 where
  pub notify_create : Directory → Action S (Unit {0})
  pub notify_update : Directory → Action S (Unit {0})
  pub notify_delete : Directory → Action S (Unit {0})
  pub notify_delete_hard : Directory → Action S (Unit {0})

-- `handler` and `wrapper`
abbrev pub Handler : Type 0 → Type 0
Handler S = Action S (Unit {0})

abbrev pub Wrapper : Type 0 → Type 0
Wrapper S = Handler S → Handler S

pub record NotifierWithStorage (S : Type 0) : Type 0 where
  pub admin : DirectoryAdmin S
  pub notifier : Notifier S
  pub notify_wrapper : Option (Wrapper S)

module _ {S : Type 0} where
  unfoldable pub add_wrapper : NotifierWithStorage S → Wrapper S → NotifierWithStorage S
  add_wrapper n w = elim n.notify_wrapper [
    | none ↦ record n { notify_wrapper = some w }
    | some outer ↦ record n { notify_wrapper = some (λ h. outer (w h)) }
  ]

  -- StorageWithNotifier; an option such as WithNotifyRetrier adds a wrapper.
  unfoldable pub with_notifier :
      DirectoryAdmin S → Notifier S → List (Wrapper S) → NotifierWithStorage S
  unfolding add_wrapper
  with_notifier s n wrappers =
      foldl add_wrapper (record { admin = s; notifier = n; notify_wrapper = none }) wrappers

  -- `n.notifyWrapper(ctx, h)`: a nil function cannot be called.
  abbrev pub call_wrapper : NotifierWithStorage S → Handler S → Handler S
  call_wrapper n h = elim n.notify_wrapper [ none ↦ lift (panic nil_dereference) | some w ↦ w h ]

  -- `if err != nil { return a, fmt.Errorf("%w: %v", ErrNotifyFailed, err) }`, and what follows.
  abbrev pub or_failed : {A : Type 0} → A → Handler S → Action S A → Action S A
  or_failed a h rest s =
      let (r, s') = h s in
      elim r [
        | ok done ↦ rest s'
        | err e ↦ (err_with a notify_failed, s')
        | err_with done e ↦ (err_with a notify_failed, s')
        | panic p ↦ (panic p, s')
        | diverge ↦ (diverge, s')
      ]

  unfoldable pub create_directory : NotifierWithStorage S → Directory → Action S Directory
  create_directory n d = do
    d' ← n.admin.create_directory d
    or_failed d' (call_wrapper n (n.notifier.notify_create d')) (pure d')

  unfoldable pub create_root : NotifierWithStorage S → Directory → Action S Directory
  create_root n d = do
    d' ← n.admin.create_root d
    or_failed d' (call_wrapper n (n.notifier.notify_create d')) (pure d')

  unfoldable pub update_directory : NotifierWithStorage S → Directory → Action S Directory
  update_directory n d = do
    d' ← n.admin.update_directory d
    or_failed d' (call_wrapper n (n.notifier.notify_update d')) (pure d')

  -- `for _, d := range affected`
  unfoldable pub notify_deleted :
      NotifierWithStorage S → List Directory → List Directory → Action S (List Directory)
  notify_deleted n affected [] = pure affected
  notify_deleted n affected (d ∷ ds) =
      or_failed affected (call_wrapper n (n.notifier.notify_delete d))
        (notify_deleted n affected ds)

  unfoldable pub delete_directory : NotifierWithStorage S → DirectoryId → Action S (List Directory)
  unfolding notify_deleted
  delete_directory n id = do
    affected ← n.admin.delete_directory id
    notify_deleted n affected affected

  -- The whole as a DirectoryAdmin: reads are passed through.
  abbrev pub notifying : NotifierWithStorage S → DirectoryAdmin S
  notifying n = record n.admin {
    create_directory = create_directory n;
    update_directory = update_directory n;
    delete_directory = delete_directory n;
    create_root = create_root n;
  }
