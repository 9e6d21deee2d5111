-- ===== src/System/Deliveries.antt =====
-- Deliveries, and the table that follows them.
use fertilesoil.Base.{◌≡◌, ◌∙◌, ap, Bool, true, false, Option, none, some, List, ◌∷◌, arith}
use std.Path.{fun_ext}
use mathlib.Core.Path.{sym}
use fertilesoil.Api.{DirectoryId, Time, DirectoryEvent}
use fertilesoil.App.SqlStorage.{Db}
use fertilesoil.App.Controller.{Controller, process_incoming_event}
use fertilesoil.App.Events.{with_sql}
use fertilesoil.System.Tracker.{View, view, play, process-play}
use fertilesoil.System.Subtree.{subtree}
use fertilesoil.System.Service.{
  is_smooth_wire, is_smooth_message_lem, play_wire, play_message, play_message_lem,
  play_message-none,
}
use fertilesoil.System.Steps.{State, handled}
use fertilesoil.System.Mirror.{Follows}

module _ {Bytes : Type 0} (decode : Bytes → Option DirectoryEvent) (changes : Bool)
    (c : Controller Db) (base : DirectoryId) where
  -- The oldest message, and then the others.
  front :
      (s : State Bytes) (rest : List Bytes) (bytes : Bytes)
      → Follows decode changes base s
      → s.wire ≡ bytes ∷ rest
      → play_wire decode rest (play_message decode bytes (view s.table.rows)) ≡ subtree base s.map
  front s rest bytes f head =
      ap (λ wire. play_wire decode wire (view s.table.rows)) (sym head) ∙ f.mirror

  front_smooth :
      (s : State Bytes) (rest : List Bytes) (bytes : Bytes)
      → Follows decode changes base s
      → s.wire ≡ bytes ∷ rest
      → changes ≡ false
      → is_smooth_wire decode (bytes ∷ rest) (view s.table.rows) ≡ true
  front_smooth s rest bytes f head quiet =
      ap (λ wire. is_smooth_wire decode wire (view s.table.rows)) (sym head) ∙ f.smooth quiet

  undecoded_smooth :
      (rest : List Bytes) (bytes : Bytes) (v : View)
      → decode bytes ≡ none
      → ¬ (is_smooth_wire decode (bytes ∷ rest) v ≡ true)
  undecoded_smooth rest bytes v undecoded h = ground arith

  rest_smooth :
      (ev : DirectoryEvent) (rest : List Bytes) (bytes : Bytes) (v : View)
      → decode bytes ≡ some ev
      → is_smooth_wire decode (bytes ∷ rest) v ≡ true
      → is_smooth_wire decode rest (play ev v) ≡ true
  rest_smooth ev rest bytes v decoded h =
      ground (arith, is_smooth_message_lem decode bytes rest ev v decoded)

  pub handled_as :
      (s : State Bytes) (rest : List Bytes) (now : Time) (bytes : Bytes)
      → Follows decode changes base s
      → s.wire ≡ bytes ∷ rest
      → (o : Option DirectoryEvent) → decode bytes ≡ o
      → Follows decode changes base
          (handled s rest (process_incoming_event (with_sql now c) now o (s.table, s.seen)))
  unfolding process_incoming_event
  handled_as s rest now bytes f head none undecoded = record {
    tree = f.tree;
    has_base = f.has_base;
    keys = f.keys;
    up = f.up;
    mirror =
        ap (play_wire decode rest) (sym (play_message-none decode bytes _ undecoded))
        ∙ front s rest bytes f head;
    smooth = λ quiet. absurd (
        undecoded_smooth rest bytes (view s.table.rows) undecoded
          (front_smooth s rest bytes f head quiet));
  }
  handled_as s rest now bytes f head (some ev) decoded =
      let (shown, keys, up) = process-play c now s.table f.up f.keys s.seen ev in
      record {
        tree = f.tree;
        has_base = f.has_base;
        keys = keys;
        up = up;
        mirror =
            ap (play_wire decode rest)
              (fun_ext shown ∙ sym (play_message_lem decode bytes ev _ decoded))
            ∙ front s rest bytes f head;
        smooth = λ quiet.
            ap (is_smooth_wire decode rest) (fun_ext shown)
            ∙ rest_smooth ev rest bytes (view s.table.rows) decoded
                (front_smooth s rest bytes f head quiet);
      }
