-- ===== src/Tests/Notifier.antt =====
-- The theorems on the storage that notifies, over the in-memory driver and a log.
use fertilesoil.Base.{
  ◌≡◌, refl, Option, none, some, List, [], ◌∷◌, Error, other, ok, err_with, notify_failed, Action,
  pure, ◌==◌, if◌then◌else◌,
}
use fertilesoil.Base.Int.{wrap64, ◌+ℤ◌, ◌-ℤ◌, ◌*ℤ◌}
use fertilesoil.Api.{Directory}
use fertilesoil.Storage.Options.{build_options, get_page, get_page_size, get_page_offset, apply_all}
use fertilesoil.Storage.DirMap.{DirMap, directory}
use fertilesoil.Storage.SortSlice.{sink, sort_loop, sort_by_created}
use fertilesoil.Storage.Paging.{copy_page, make_and_read, read_from, page_limit}
use fertilesoil.Storage.Interface.{DirectoryAdmin, memory_driver}
use fertilesoil.Storage.Memory.Delete.{mark_deleted, delete_children}
use fertilesoil.Storage.Memory.Read.{get_directory, collect}
use fertilesoil.Storage.Memory.Descendants.{get_descendants, get_children, descend}
use fertilesoil.Storage.Memory.Delete
use fertilesoil.Storage.Notifier.{Notifier, with_notifier, delete_directory}
use fertilesoil.Storage.Notifier.Laws.{logging, delete_directory_tells}
use fertilesoil.Tests.{time_at, root_dir, child_dir, grandchild_dir, three, around}

-- A call of the storage beside a log.
abbrev beside_log : {A : Type 0} → Action DirMap A → Action (DirMap × List Directory) A
beside_log m (s, log) = let (r, s') = m s in (r, (s', log))

abbrev logged : DirectoryAdmin (DirMap × List Directory)
logged =
    let m = memory_driver around in
    record {
      get_directory = λ id settings. beside_log (m.get_directory id settings);
      get_parents = λ id settings. beside_log (m.get_parents id settings);
      get_parents_until_ancestor =
          λ id ancestor settings. beside_log (m.get_parents_until_ancestor id ancestor settings);
      get_children = λ id settings. beside_log (m.get_children id settings);
      list_roots = λ settings. beside_log (m.list_roots settings);
      create_directory = λ d. beside_log (m.create_directory d);
      update_directory = λ d. beside_log (m.update_directory d);
      delete_directory = λ id. beside_log (m.delete_directory id);
      create_root = λ d. beside_log (m.create_root d);
    }

-- The notification of the directory 2 fails.
abbrev answers : Directory → Option Error
answers d = if d.id == 2 then some (other 0) else none

abbrev silent : Notifier DirMap
silent = record {
  notify_create = λ d. pure tt;
  notify_update = λ d. pure tt;
  notify_delete = λ d. pure tt;
  notify_delete_hard = λ d. pure tt;
}

abbrev marked_child : Directory
marked_child = mark_deleted (time_at 40) child_dir

abbrev marked_grandchild : Directory
marked_grandchild = mark_deleted (time_at 40) grandchild_dir

abbrev cleared : DirMap
cleared =
    (3, directory marked_grandchild) ∷ (2, directory marked_child) ∷ (1, directory root_dir) ∷ []

deleted_two :
    logged.delete_directory 2 (three, [])
    ≡ (ok (marked_child ∷ marked_grandchild ∷ []), (cleared, []))
unfolding Delete.delete_directory delete_children get_directory get_children get_descendants descend
    collect sort_by_created sort_loop sink copy_page make_and_read read_from page_limit
    get_page_offset build_options apply_all get_page get_page_size wrap64 ◌+ℤ◌ ◌-ℤ◌ ◌*ℤ◌
deleted_two = refl

delete_directory_tells_example :
    delete_directory (with_notifier logged (logging answers) ((λ h. h) ∷ [])) 2 (three, [])
    ≡ (err_with (marked_child ∷ marked_grandchild ∷ []) notify_failed, (cleared, marked_child ∷ []))
delete_directory_tells_example =
    delete_directory_tells logged answers 2 (marked_child ∷ marked_grandchild ∷ []) [] (three, [])
      cleared deleted_two
