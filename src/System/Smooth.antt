-- ===== src/System/Smooth.antt =====
-- Events that the controller handles without an error.
use fertilesoil.Base.{
  ◌≡◌, refl, ◌∙◌, ap, sym, true, false, Option, some, List, [], ◌∷◌, map, ok, arith, Bool-cases,
  Option-cases, inl, inr, bind_ok,
}
use std.Path.{fun_ext}
use fertilesoil.Api.{Time, is_deleted, DirectoryEvent, create, delete}
use fertilesoil.App.SqlStorage.{Db, find_row}
use fertilesoil.App.Controller.{
  Controller, World, process_incoming_event, Signal, received, run_loop, event_of,
}
use fertilesoil.App.Tracking.{HasKeys, is_live_row}
use fertilesoil.App.Events.{
  concerns, with_sql, process_other, process_new, process_deleted, with_wrap,
}
use fertilesoil.System.Tracker.{view, concerns-view, process-play, is_smooth}
use fertilesoil.System.Service.{play_message, play_message_lem, play_wire, is_smooth_wire}

-- What the loop of Run receives when the messages arrive.
abbrev pub signals :
    {Bytes : Type 0} → Time → (Bytes → Option DirectoryEvent) → List Bytes → List (Time × Signal)
signals now decode = map (λ b. (now, received (decode b)))

module _ (c : Controller Db) (now : Time)
    (accepts : (ev : DirectoryEvent) → c.reconcile ev ≡ ok tt) where
  pub process-ok :
      (db : Db) (seen : List DirectoryEvent) (ev : DirectoryEvent)
      → db.faults ≡ []
      → HasKeys db.rows
      → is_smooth ev (view db.rows) ≡ true
      → (process_incoming_event (with_sql now c) now (some ev) (db, seen)).0 ≡ ok tt
  process-ok db seen ev up keys smooth = elim (Bool-cases (concerns ev db.rows)) [
    | inr off ↦ ap (λ r. r.0) (process_other c now db up seen ev off)
    | inl on ↦ elim (Option-cases (find_row ev.directory.id db.rows)) [
      | inl new ↦
          let live : is_deleted ev.directory ≡ false = ground (arith, concerns-view ev db.rows) in
          ap (λ r. r.0) (process_new c now db up seen ev on live new)
          ∙ ap (with_wrap "error persisting directory") (accepts (event_of create now ev.directory))
      | inr (at, old) ↦
          let gone : is_deleted ev.directory ≡ true = ground (arith, concerns-view ev db.rows) in
          let live : is_live_row ev.directory.id db.rows ≡ true =
            ground (arith, concerns-view ev db.rows) in
          ground (
            arith,
            process_deleted c now db up seen ev keys on gone,
            accepts (event_of delete now ev.directory),
          )
    ]
  ]

  run_loop_step :
      (ev : Option DirectoryEvent) (rest : List (Time × Signal)) (w w' : World Db)
      → process_incoming_event (with_sql now c) now ev w ≡ (ok tt, w')
      → run_loop (with_sql now c) ((now, received ev) ∷ rest) w ≡ run_loop (with_sql now c) rest w'
  unfolding run_loop
  run_loop_step ev rest w w' done =
      bind_ok (process_incoming_event (with_sql now c) now ev)
        (λ done. run_loop (with_sql now c) rest) w w' tt done

  pub run_loop-smooth :
      {Bytes : Type 0} (decode : Bytes → Option DirectoryEvent) (wire : List Bytes) (db : Db)
      (seen : List DirectoryEvent)
      → db.faults ≡ []
      → HasKeys db.rows
      → is_smooth_wire decode wire (view db.rows) ≡ true
      → (w : World Db) × (run_loop (with_sql now c) (signals now decode wire) (db, seen)
          ≡ (ok false, w))
        × (view w.0.rows ≡ play_wire decode wire (view db.rows))
  unfolding run_loop
  run_loop-smooth decode [] db seen up keys smooth = ((db, seen), refl, refl)
  run_loop-smooth decode (b ∷ bs) db seen up keys smooth = elim (Option-cases (decode b)) [
    | inl undecoded ↦ absurd (ground arith)
    | inr (ev, decoded) ↦
        let (shown, keys', up') = process-play c now db up keys seen ev in
        let next = process_incoming_event (with_sql now c) now (some ev) (db, seen) in
        let played : view next.1.0.rows ≡ play_message decode b (view db.rows) =
          fun_ext shown ∙ sym (play_message_lem decode b ev (view db.rows) decoded) in
        let (w, rest, seen_all) =
          run_loop-smooth decode bs next.1.0 next.1.1 up' keys'
            (ap (is_smooth_wire decode bs) played ∙ ground arith) in
        let done : process_incoming_event (with_sql now c) now (decode b) (db, seen)
            ≡ (ok tt, next.1) =
          ap (λ o. process_incoming_event (with_sql now c) now o (db, seen)) decoded
          ∙ ap (λ r. (r, next.1)) (process-ok db seen ev up keys (ground arith)) in
        (
          w,
          run_loop_step (decode b) (signals now decode bs) (db, seen) next.1 done ∙ rest,
          seen_all ∙ ap (play_wire decode bs) played,
        )
  ]
