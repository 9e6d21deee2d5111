-- ===== src/Storage/Notifier/Laws.antt =====
-- When the notifying storage writes, what it has told the notifier, and what it returns.
use fertilesoil.Base.{
  ◌≡◌, refl, Option, none, some, is_none, List, [], ◌∷◌, ◌++◌, if◌then◌else◌, Outcome, ok, err,
  err_with, panic, notify_failed, nil_dereference, arith, Error,
}
use mathlib.Core.List.{append-nil, append_assoc}
use fertilesoil.Api.{DirectoryId, Directory}
use fertilesoil.Storage.Interface.{DirectoryAdmin}
use fertilesoil.Storage.Notifier.{
  Notifier, NotifierWithStorage, add_wrapper, with_notifier, create_directory, notify_deleted,
  delete_directory,
}

-- What a notifier reports of a directory: nothing, or an error.
abbrev report : Option Error → Outcome (Unit {0})
report none = ok tt
report (some e) = err e

-- A notifier that keeps a log of what it is told, and answers as `answer` says.
abbrev pub logging : {S : Type 0} → (Directory → Option Error) → Notifier (S × List Directory)
logging answer = record {
  notify_create = λ d (s, log). (report (answer d), (s, log ++ d ∷ []));
  notify_update = λ d (s, log). (report (answer d), (s, log ++ d ∷ []));
  notify_delete = λ d (s, log). (report (answer d), (s, log ++ d ∷ []));
  notify_delete_hard = λ d (s, log). (report (answer d), (s, log ++ d ∷ []));
}

-- The directories up to the first one whose notification fails, that one included.
abbrev pub told : (Directory → Option Error) → List Directory → List Directory
told answer [] = []
told answer (d ∷ ds) = d ∷ (let rest = told answer ds in if is_none (answer d) then rest else [])

-- What a write that made `a` returns when the notifications of `ds` follow.
abbrev pub returned : {A : Type 0} → (Directory → Option Error) → List Directory → A → Outcome A
returned answer [] a = ok a
returned answer (d ∷ ds) a =
    let rest = returned answer ds a in if is_none (answer d) then rest else err_with a notify_failed

module _ {S : Type 0} (s : DirectoryAdmin S) (n : Notifier S) where
  -- Without an option there is no wrapper to call: each write that succeeds in the storage has
  -- been made, and then the call panics.
  pub unwrapped_panics :
      (d d' : Directory) (before after : S)
      → s.create_directory d before ≡ (ok d', after)
      → create_directory (with_notifier s n []) d before ≡ (panic nil_dereference, after)
  unfolding create_directory with_notifier
  unwrapped_panics d d' before after made = ground arith

module _ {S : Type 0} (s : DirectoryAdmin (S × List Directory))
    (answer : Directory → Option Error) where
  -- The wrapper that calls its handler once.
  abbrev once : NotifierWithStorage (S × List Directory)
  once = record { admin = s; notifier = logging answer; notify_wrapper = some (λ h. h) }

  notify_deleted_lem :
      (affected ds log : List Directory) (after : S)
      → notify_deleted once affected ds (after, log)
        ≡ (returned answer ds affected, (after, log ++ told answer ds))
  unfolding notify_deleted
  notify_deleted_lem affected [] log after = rw (append-nil log) refl
  notify_deleted_lem affected (d ∷ ds) log after = ground (
    arith,
    notify_deleted_lem affected ds (log ++ d ∷ []) after,
    append_assoc log (d ∷ []) (told answer ds),
  )

  -- A deletion that succeeds in the storage, with a wrapper that calls its handler once: the notifier is
  -- told of the deleted directories in their order, up to the first failure, that one included. The
  -- answer is the list of the deleted directories, beside ErrNotifyFailed when there was a failure; the
  -- storage keeps the deletion.
  pub delete_directory_tells :
      (id : DirectoryId) (affected log : List Directory) (before : S × List Directory) (after : S)
      → s.delete_directory id before ≡ (ok affected, (after, log))
      → delete_directory (with_notifier s (logging answer) ((λ h. h) ∷ [])) id before
        ≡ (returned answer affected affected, (after, log ++ told answer affected))
  unfolding delete_directory with_notifier add_wrapper
  delete_directory_tells id affected log before after made =
      ground (arith, notify_deleted_lem affected affected log after)

  -- A creation that succeeds in the storage, with a wrapper that calls its handler once: the notifier is
  -- told of the directory that the storage made. When it fails the answer is that directory beside
  -- ErrNotifyFailed, and the storage keeps the directory.
  pub create_directory_tells :
      (d d' : Directory) (log : List Directory) (before : S × List Directory) (after : S)
      → s.create_directory d before ≡ (ok d', (after, log))
      → create_directory (with_notifier s (logging answer) ((λ h. h) ∷ [])) d before
        ≡ (returned answer (d' ∷ []) d', (after, log ++ d' ∷ []))
  unfolding create_directory with_notifier add_wrapper
  create_directory_tells d d' log before after made = ground arith
