-- ===== src/System/Mirror.antt =====
-- The table of the application and the subtree that it follows: what holds at every moment.
use fertilesoil.Base.{
  ◌≡◌, refl, ◌∙◌, ap, Bool, true, false, ◌&&◌, Option, some, is_some, List, [], ◌∷◌, ◌++◌, Outcome,
  arith,
}
use std.Path.{fun_ext}
use mathlib.Core.Path.{sym}
use fertilesoil.Api.{DirectoryId, DirectoryEvent}
use fertilesoil.Storage.DirMap.{DirMap, lookup}
use fertilesoil.Storage.Memory.Tree.{IsTree}
use fertilesoil.App.Tracking.{HasKeys}
use fertilesoil.System.Tracker.{view, play, is_smooth}
use fertilesoil.System.Subtree.{subtree}
use fertilesoil.System.Service.{
  is_smooth_wire, is_smooth_wire-append, is_smooth_message_lem, play_wire, play_message_lem,
  play_wire-append,
}
use fertilesoil.System.Steps.{State, answered}

-- The map is a tree that holds the base directory, the table is good, and the messages that are still to
-- come make the table say what the subtree of the map says. Without updates each of them is handled without
-- an error.
pub record Follows {Bytes : Type 0} (decode : Bytes → Option DirectoryEvent) (changes : Bool)
    (base : DirectoryId) (s : State Bytes) : Type 0 where
  pub tree : IsTree s.map
  pub has_base : is_some (lookup base s.map) ≡ true
  pub keys : HasKeys s.table.rows
  pub up : s.table.faults ≡ []
  pub mirror : play_wire decode s.wire (view s.table.rows) ≡ subtree base s.map
  pub smooth : changes ≡ false → is_smooth_wire decode s.wire (view s.table.rows) ≡ true

module _ {Bytes : Type 0} (decode : Bytes → Option DirectoryEvent) (changes : Bool)
    (base : DirectoryId) where
  pub both : {p q : Bool} → p ≡ true → q ≡ true → (p && q) ≡ true
  both h k = ground arith

  -- One more message.
  pub sent :
      (s : State Bytes) (m' : DirMap) (bytes : Bytes) (ev : DirectoryEvent)
      → Follows decode changes base s
      → decode bytes ≡ some ev
      → IsTree m'
      → is_some (lookup base m') ≡ true
      → ((x : DirectoryId) → subtree base m' x ≡ play ev (subtree base s.map) x)
      → (changes ≡ false → is_smooth ev (subtree base s.map) ≡ true)
      → Follows decode changes base (record s { map = m'; wire = s.wire ++ bytes ∷ [] })
  sent s m' bytes ev f decoded tree has_base shown smooth = record {
    tree = tree;
    has_base = has_base;
    keys = f.keys;
    up = f.up;
    mirror =
        play_wire-append decode s.wire (bytes ∷ []) (view s.table.rows)
        ∙ play_message_lem decode bytes ev _ decoded
        ∙ ap (play ev) f.mirror
        ∙ sym (fun_ext shown);
    smooth = λ quiet.
        is_smooth_wire-append decode s.wire (bytes ∷ []) (view s.table.rows)
        ∙ both (f.smooth quiet) (
            is_smooth_message_lem decode bytes [] ev (play_wire decode s.wire (view s.table.rows))
              decoded
            ∙ both (ap (is_smooth ev) f.mirror ∙ smooth quiet) refl);
  }

  pub answered_as :
      {A : Type 0} (s : State Bytes) (r r' : Outcome A × (DirMap × List Bytes))
      → r ≡ r'
      → Follows decode changes base (answered s r')
      → Follows decode changes base (answered s r)
  answered_as s r r' e h = rw e h
