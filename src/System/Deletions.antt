-- ===== src/System/Deletions.antt =====
-- Deletions, and the table that follows them.
use fertilesoil.Base.{
  ◌<◌, ◌≡◌, refl, ◌∙◌, ap, Bool, true, false, Option, some, List, [], ◌∷◌, ◌++◌, Outcome, ok, err,
  length, take, SameItems, arith, String, Option-cases, inl, inr, directory_not_found,
}
use std.Path.{fun_ext}
use mathlib.Core.Path.{sym}
use fertilesoil.Base.Int.{int_half}
use fertilesoil.Api.{DirectoryId, Time, Directory, is_zero, DirectoryEvent, delete}
use fertilesoil.Storage.DirMap.{DirMap}
use fertilesoil.Storage.Interface.{Surroundings, memory_driver}
use fertilesoil.Storage.Memory.Tree.{IsTree, replace-IsTree}
use fertilesoil.Storage.Notifier.{delete_directory}
use fertilesoil.Storage.Memory.Delete.{mark_deleted, write_deleted}
use fertilesoil.Storage.Memory.Delete
use fertilesoil.Storage.Memory.Deletion.{
  Deletes, mark_all, mark_all-IsTree, lookup-mark_all, get_directory-live,
}
use fertilesoil.Storage.Memory.Deleted.{delete_directory_chain, ids_of}
use fertilesoil.Storage.Memory.Kept.{get_directory-cases}
use fertilesoil.Messaging.Nats.{NatsNotifier, get_event}
use fertilesoil.System.Tracker.{view, play}
use fertilesoil.System.Subtree.{subtree, subtree-delete}
use fertilesoil.System.Service.{
  is_smooth_wire-append, is_smooth_deletions, play_deletions, delete_directory_wire,
  delete_directory_failed, service, play_wire-append,
}
use fertilesoil.System.Steps.{State, answered}
use fertilesoil.System.Mirror.{Follows, both, answered_as}

module _ {Bytes : Type 0} (decode : Bytes → Option DirectoryEvent) (changes : Bool)
    (base : DirectoryId) where
  -- A deletion, mark after mark.
  played_marks :
      (t now : Time) (affected : List Directory) (m m' : DirMap)
      → IsTree m
      → is_zero t ≡ false
      → Deletes t affected m m'
      → play_deletions now affected (subtree base m) ≡ subtree base m'
  played_marks t now [] m m' tree past chain = ap (subtree base) chain
  played_marks t now (a ∷ rest) m m' tree past (d, same, found, live, chain) =
      ap
        (λ (b : Directory).
          play_deletions now rest (play (get_event delete now b) (subtree base m)))
        same
      ∙ ap (play_deletions now rest)
          (sym (fun_ext (λ x. subtree-delete base m d.id d t now x found refl past)))
      ∙ played_marks t now rest (write_deleted d.id t d m) m'
          (replace-IsTree m d.id d (mark_deleted t d) tree found refl refl) past chain

  -- Each of the marked directories was not deleted when it was marked.
  smooth_marks :
      (t now : Time) (affected : List Directory) (m m' : DirMap)
      → IsTree m
      → is_zero t ≡ false
      → Deletes t affected m m'
      → is_smooth_deletions now affected (subtree base m) ≡ true
  smooth_marks t now [] m m' tree past chain = refl
  smooth_marks t now (a ∷ rest) m m' tree past (d, same, found, live, chain) = rw same (
      both decode changes base (ground arith) (
        ap (is_smooth_deletions now rest)
          (sym (fun_ext (λ x. subtree-delete base m d.id d t now x found refl past)))
        ∙ smooth_marks t now rest (write_deleted d.id t d m) m'
            (replace-IsTree m d.id d (mark_deleted t d) tree found refl refl) past chain))

module _ {Bytes : Type 0} (n : NatsNotifier (DirMap × List Bytes) Bytes)
    (decode : Bytes → Option DirectoryEvent)
    (ordered : (subject : String) (bytes : Bytes) (m : DirMap) (wire : List Bytes)
      → n.js.publish subject bytes (m, wire) ≡ (ok tt, (m, wire ++ bytes ∷ [])))
    (faithful : (ev : DirectoryEvent)
      → (bytes : Bytes) × (n.encode ev ≡ some bytes) × (decode bytes ≡ some ev))
    (changes : Bool) (base : DirectoryId) where
  module _ (s : State Bytes) (f : Follows decode changes base s) (e : Surroundings)
      (id : DirectoryId) where
    abbrev answer : Outcome (List Directory) × (DirMap × List Bytes)
    answer = delete_directory (service n e) id (s.map, s.wire)

    follows_refused :
        (memory_driver e).delete_directory id s.map ≡ (err directory_not_found, s.map)
        → Follows decode changes base (answered s answer)
    follows_refused failed =
        answered_as decode changes base s answer (err directory_not_found, (s.map, s.wire))
          (delete_directory_failed n e s.map s.map s.wire directory_not_found id failed) f

    follows_deleted :
        (affected : List Directory) (ids : List DirectoryId)
        → is_zero e.now ≡ false
        → (memory_driver e).delete_directory id s.map ≡ (ok affected, mark_all e.now ids s.map)
        → Deletes e.now affected s.map (mark_all e.now ids s.map)
        → Follows decode changes base (answered s answer)
    follows_deleted affected ids past deleted chain =
        let m' = mark_all e.now ids s.map in
        let (bs, done, played) =
          delete_directory_wire n decode ordered faithful e id affected s.map m' s.wire deleted in
        answered_as decode changes base s answer (ok affected, (m', s.wire ++ bs)) done
          (record {
            tree = mark_all-IsTree e.now ids s.map f.tree;
            has_base = ground (arith, lookup-mark_all e.now ids base s.map, f.has_base);
            keys = f.keys;
            up = f.up;
            mirror =
                play_wire-append decode s.wire bs (view s.table.rows)
                ∙ (played _).0
                ∙ ap (play_deletions e.later affected) f.mirror
                ∙ played_marks decode changes base e.now e.later affected s.map m' f.tree past
                    chain;
            smooth = λ quiet.
                is_smooth_wire-append decode s.wire bs (view s.table.rows)
                ∙ both decode changes base (f.smooth quiet) (
                    (played _).1
                    ∙ ap (is_smooth_deletions e.later affected) f.mirror
                    ∙ smooth_marks decode changes base e.now e.later affected s.map m' f.tree past
                        chain);
          })

    pub follows-deletion :
        SameItems (e.visit s.map) s.map
        → length s.map < int_half
        → is_zero e.now ≡ false
        → Follows decode changes base (answered s answer)
    unfolding Delete.delete_directory
    follows-deletion visits small past = elim (get_directory-cases s.map id [] f.tree) [
      | inl missing ↦ follows_refused (ground arith)
      | inr (d, found, entry, same) ↦ elim (Option-cases d.parent) [
        | inl root ↦ follows_refused (ground arith)
        | inr (p, child) ↦
            let (listing, items, sorted, affected, deleted, ids, chain) =
              delete_directory_chain e.visit e.now id s.map d p visits f.tree small
                (get_directory-live s.map id d found) entry child in
            follows_deleted affected (id ∷ ids_of (take 10 listing)) past deleted chain
      ]
    ]
