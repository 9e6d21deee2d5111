-- ===== src/App/Controller.antt =====
-- The controller (app/v1/controllerimpl.go, app/v1/fullsubtree_reconciler.go). The world is the
-- state of the storage and the events handed to the reconciler so far. The clock, the random
-- draws, the answers of the client and of the reconciler, and what the select statement of Run
-- receives, are arguments.
use fertilesoil.Base.{
  ℕ, Bool, true, false, Option, none, some, List, [], ◌∷◌, ◌++◌, if◌then◌else◌, Error,
  no_reconciler, wrap, Outcome, ok, err, err_with, panic, diverge, nil_dereference,
  invalid_argument, String, Action, pure, raise, lift, ◌>>=◌, ◌>>◌,
}
use fertilesoil.Base.Int.{ℤ, pos, ◌+ℤ◌, ◌*ℤ◌, ltb_ℤ, wrap64}
use fertilesoil.Api.{
  DirectoryId, Time, Directory, is_deleted, EventType, create, delete, DirectoryEvent, api_version,
}
use fertilesoil.App.Interfaces.{AppStorage, ReadOnlyClient}

pub record Controller (S : Type 0) : Type 0 where
  -- The client, by the time at which the controller asks it.
  pub client : Option (Time → ReadOnlyClient)
  pub base_dir : DirectoryId
  pub store : AppStorage S
  pub reconcile : DirectoryEvent → Outcome (Unit {0})
  pub minimum_interval : ℤ
  pub maximum_interval : ℤ
  pub interval_unit : ℤ

-- NoopReconciler.
abbrev pub noop_reconcile : DirectoryEvent → Outcome (Unit {0})
noop_reconcile ev = ok tt

-- newController, on the options that it has applied.
unfoldable pub new_controller :
    {S : Type 0}
    → Option (Time → ReadOnlyClient)
    → DirectoryId
    → AppStorage S
    → Option (DirectoryEvent → Outcome (Unit {0}))
    → Option (ℤ × ℤ × ℤ)
    → Outcome (Controller S)
new_controller client base_dir store none intervals = err no_reconciler
new_controller client base_dir store (some r) intervals = ok (record {
  client = client;
  base_dir = base_dir;
  store = store;
  reconcile = r;
  minimum_interval = elim intervals [ none ↦ pos 5 | some (lo, hi, unit) ↦ lo ];
  maximum_interval = elim intervals [ none ↦ pos 10 | some (lo, hi, unit) ↦ hi ];
  interval_unit = elim intervals [ none ↦ pos 60_000_000_000 | some (lo, hi, unit) ↦ unit ];
})

-- getRandomTickerDuration; `draw` is what rand.Intn gives, which panics on a bound below 1.
unfoldable pub random_ticker_duration : ℤ → ℤ → ℤ → ℕ → Outcome ℤ
random_ticker_duration lo hi unit draw =
    if ltb_ℤ (pos 0) hi
    then ok (wrap64 (wrap64 (lo +ℤ pos draw) *ℤ unit))
    else panic invalid_argument

abbrev pub World : Type 0 → Type 0
World S = S × List DirectoryEvent

abbrev pub event_of : EventType → Time → Directory → DirectoryEvent
event_of type now d = record { version = api_version; event_type = type; time = now; directory = d }

abbrev pub is_create : EventType → Bool
is_create create = true
is_create _ = false

-- What the select statement of Run receives: the end of the context, a tick with the next random
-- draw, a value of the error channel, a value of the event channel. A closed channel gives nil.
pub data Signal : Type 0 where
  cancelled : Error → Signal
  tick : ℕ → Signal
  watch_error : Option Error → Signal
  received : Option DirectoryEvent → Signal

-- time.NewTicker and Reset panic on an interval below 1.
abbrev pub start_ticker : ℤ → Outcome (Unit {0})
start_ticker d = if ltb_ℤ (pos 0) d then ok tt else panic invalid_argument

module _ {S : Type 0} where
  -- A call of the storage.
  abbrev pub on_store : {A : Type 0} → Action S A → Action (World S) A
  on_store m (s, events) = let (r, s') = m s in (r, (s', events))

  -- `fmt.Errorf("...: %w", err)` on the error of a call.
  abbrev pub with_context : {A : Type 0} → String → Action (World S) A → Action (World S) A
  with_context text m w =
      let (r, w') = m w in
      elim r [
        | ok a ↦ (ok a, w')
        | err e ↦ (err (wrap text e), w')
        | err_with a e ↦ (err (wrap text e), w')
        | panic p ↦ (panic p, w')
        | diverge ↦ (diverge, w')
      ]

  -- A call of the reconciler.
  abbrev pub reconcile : Controller S → DirectoryEvent → Action (World S) (Unit {0})
  reconcile c ev (s, events) = (c.reconcile ev, (s, events ++ ev ∷ []))

  unfoldable pub persist_directory : Controller S → Time → Directory → Action (World S) (Unit {0})
  persist_directory c now d =
      if is_deleted d
      then (do gone ← on_store (c.store.delete_directory d.id); reconcile c (event_of delete now d))
      else (do made ← on_store (c.store.create_directory d); reconcile c (event_of create now d))

  unfoldable pub is_relevant_event : Controller S → DirectoryEvent → Action (World S) Bool
  is_relevant_event c ev = do
    let d = ev.directory
    tracking ←
        with_context "error checking if directory is tracked"
          (on_store (c.store.is_directory_tracked d.id))
    if tracking
        then pure true
        else if is_create ev.event_type
        then elim d.parent [
          | none ↦ pure false
          | some p ↦
              with_context "error checking if parent directory is tracked"
                (on_store (c.store.is_directory_tracked p))
        ]
        else pure false

  -- The event is a pointer, nil when the channel is closed.
  unfoldable pub process_incoming_event :
      Controller S → Time → Option DirectoryEvent → Action (World S) (Unit {0})
  unfolding is_relevant_event persist_directory
  process_incoming_event c now none = lift (panic nil_dereference)
  process_incoming_event c now (some ev) = do
    relevant ← with_context "error checking if directory is tracked" (is_relevant_event c ev)
    if relevant
        then with_context "error persisting directory" (persist_directory c now ev.directory)
        else pure tt

  unfoldable pub persist_if_up_to_date :
      Controller S → Time → DirectoryId → Action (World S) (Unit {0})
  unfolding persist_directory
  persist_if_up_to_date c now dir = elim c.client [
    | none ↦ pure tt
    | some client ↦ do
      d ← lift ((client now).get_directory dir)
      up_to_date ← on_store (c.store.is_directory_info_updated d)
      if up_to_date then pure tt else persist_directory c now d
  ]

  unfoldable pub persist_all : Controller S → Time → List DirectoryId → Action (World S) (Unit {0})
  unfolding persist_if_up_to_date
  persist_all c now [] = pure tt
  persist_all c now (dir ∷ dirs) = do persist_if_up_to_date c now dir; persist_all c now dirs

  unfoldable pub initialize_directories : Controller S → Time → Action (World S) (Unit {0})
  unfolding persist_all
  initialize_directories c now = elim c.client [
    | none ↦ pure tt
    | some client ↦ do
      persist_if_up_to_date c now c.base_dir
      subdirs ← lift ((client now).get_children c.base_dir)
      persist_all c now subdirs
  ]

  abbrev pub set_ticker : Controller S → ℕ → Action (World S) (Unit {0})
  set_ticker c draw w =
      elim (random_ticker_duration c.minimum_interval c.maximum_interval c.interval_unit draw) [
        | ok d ↦ (start_ticker d, w)
        | err e ↦ (err e, w)
        | err_with a e ↦ (err e, w)
        | panic p ↦ (panic p, w)
        | diverge ↦ (diverge, w)
      ]

  -- The loop of Run on the signals that arrive, each with the time of its handling: `ok true` when
  -- Run has returned nil, `ok false` when it waits for the next signal.
  unfoldable pub run_loop : Controller S → List (Time × Signal) → Action (World S) Bool
  unfolding initialize_directories process_incoming_event random_ticker_duration
  run_loop c [] = pure false
  run_loop c ((now, cancelled e) ∷ signals) = raise e
  run_loop c ((now, tick draw) ∷ signals) = do
    initialize_directories c now
    set_ticker c draw
    run_loop c signals
  run_loop c ((now, watch_error none) ∷ signals) = pure true
  run_loop c ((now, watch_error (some e)) ∷ signals) = raise e
  run_loop c ((now, received ev) ∷ signals) = do process_incoming_event c now ev; run_loop c signals

  unfoldable pub run : Controller S → Time → ℕ → List (Time × Signal) → Action (World S) Bool
  unfolding run_loop
  run c now draw signals = do set_ticker c draw; initialize_directories c now; run_loop c signals
