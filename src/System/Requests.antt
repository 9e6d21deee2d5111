-- ===== src/System/Requests.antt =====
-- Creations and updates, and the table that follows them.
use fertilesoil.Base.{
  ◌≡◌, refl, Bool, true, Option, none, some, is_some, List, [], ◌∷◌, ◌++◌, ok, err, arith, String,
  Option-cases, inl, inr, directory_without_parent, root_with_parent_directory,
}
use fertilesoil.Api.{DirectoryId, Directory, DirectoryEvent, create, update}
use fertilesoil.Storage.DirMap.{directory, DirMap, lookup, replace, store, lookup-replace}
use fertilesoil.Storage.Interface.{Surroundings, memory_driver}
use fertilesoil.Storage.Memory.Tree.{HasParent, replace-IsTree, lookup-IsTree}
use fertilesoil.Storage.Memory.Write.{default_metadata, stamp}
use fertilesoil.Storage.Memory.Write
use fertilesoil.Storage.Memory.Writes.{insert_new_fresh}
use fertilesoil.Storage.Notifier.{create_directory, create_root, update_directory}
use fertilesoil.Messaging.Nats.{NatsNotifier, get_event}
use fertilesoil.System.Subtree.{subtree-create, subtree-update}
use fertilesoil.System.Service.{
  service, create_directory_wire, create_root_wire, update_directory_wire, create_directory_failed,
  create_root_failed,
}
use fertilesoil.System.Steps.{State, answered}
use fertilesoil.System.Mirror.{Follows, sent, answered_as}

module _ {Bytes : Type 0} (n : NatsNotifier (DirMap × List Bytes) Bytes)
    (decode : Bytes → Option DirectoryEvent)
    (ordered : (subject : String) (bytes : Bytes) (m : DirMap) (wire : List Bytes)
      → n.js.publish subject bytes (m, wire) ≡ (ok tt, (m, wire ++ bytes ∷ [])))
    (faithful : (ev : DirectoryEvent)
      → (bytes : Bytes) × (n.encode ev ≡ some bytes) × (decode bytes ≡ some ev))
    (changes : Bool) (base : DirectoryId) where
  module _ (s : State Bytes) (f : Follows decode changes base s) (e : Surroundings) where
    module _ (d : Directory) where
      abbrev stamped : Directory
      stamped = stamp e.new_id e.now e.later d

      -- A directory that the driver has stored under a new id.
      made :
          (bytes : Bytes)
          → decode bytes ≡ some (get_event create e.later stamped)
          → lookup e.new_id s.map ≡ none
          → d.deleted_at ≡ none
          → HasParent d s.map
          → Follows decode changes base (record s {
            map = (e.new_id, directory stamped) ∷ s.map;
            wire = s.wire ++ bytes ∷ [];
          })
      made bytes decoded fresh live parent =
          sent decode changes base s ((e.new_id, directory stamped) ∷ s.map) bytes
            (get_event create e.later stamped) f decoded (refl, fresh, parent, f.tree)
            (ground (arith, f.has_base))
            (λ x. subtree-create base s.map stamped e.later x f.tree f.has_base fresh live)
            (λ quiet. ground arith)

      pub follows-creation :
          lookup e.new_id s.map ≡ none
          → d.deleted_at ≡ none
          → HasParent d s.map
          → Follows decode changes base
              (answered s (create_directory (service n e) d (s.map, s.wire)))
      unfolding Write.create_directory
      follows-creation fresh live parent = elim (Option-cases d.parent) [
        | inl root ↦
            answered_as decode changes base s _ (err directory_without_parent, (s.map, s.wire))
              (create_directory_failed n e s.map s.map s.wire directory_without_parent d
                (ground arith))
              f
        | inr (p, child) ↦
            let (bytes, done, decoded) =
              create_directory_wire n decode ordered faithful e d stamped s.map
                ((e.new_id, directory stamped) ∷ s.map) s.wire
                (ground (arith, insert_new_fresh e.new_id e.now e.later d s.map fresh)) in
            answered_as decode changes base s _ _ done (made bytes decoded fresh live parent)
      ]

      pub follows-root_creation :
          lookup e.new_id s.map ≡ none
          → d.deleted_at ≡ none
          → Follows decode changes base (answered s (create_root (service n e) d (s.map, s.wire)))
      unfolding Write.create_root
      follows-root_creation fresh live = elim (Option-cases d.parent) [
        | inr (p, child) ↦
            answered_as decode changes base s _ (err root_with_parent_directory, (s.map, s.wire))
              (create_root_failed n e s.map s.map s.wire root_with_parent_directory d
                (ground arith))
              f
        | inl root ↦
            let (bytes, done, decoded) =
              create_root_wire n decode ordered faithful e d stamped s.map
                ((e.new_id, directory stamped) ∷ s.map) s.wire
                (ground (arith, insert_new_fresh e.new_id e.now e.later d s.map fresh)) in
            answered_as decode changes base s _ _ done
              (made bytes decoded fresh live (λ p h. ground arith))
      ]

    abbrev updated : Directory → Directory
    updated d = record (default_metadata d) { updated_at = e.now }

    pub follows-change :
        (d old : Directory)
        → changes ≡ true
        → lookup d.id s.map ≡ some (directory old)
        → d.parent ≡ old.parent
        → d.deleted_at ≡ old.deleted_at
        → Follows decode changes base
            (answered s (update_directory (service n e) d (s.map, s.wire)))
    unfolding Write.update_directory store
    follows-change d old changing found same kept =
        let there : is_some (lookup d.id s.map) ≡ true = ground arith in
        let m' = replace d.id (directory (updated d)) s.map in
        let driver : (memory_driver e).update_directory d s.map ≡ (ok (updated d), m') =
          ground arith in
        let (bytes, done, decoded) =
          update_directory_wire n decode ordered faithful e d (updated d) s.map m' s.wire driver in
        answered_as decode changes base s _ _ done (
          sent decode changes base s m' bytes (get_event update e.later (updated d)) f decoded
            (replace-IsTree s.map d.id old (updated d) f.tree found
              (ground (arith, lookup-IsTree s.map d.id f.tree found)) same)
            (ground (arith, lookup-replace d.id base (directory (updated d)) s.map, f.has_base))
            (λ x. subtree-update base s.map old (updated d) e.later x found same kept)
            (λ quiet. absurd (ground arith)))
