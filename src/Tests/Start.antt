-- ===== src/Tests/Start.antt =====
-- A run from an empty table, at a root without children, below which a child is made and deleted.
use fertilesoil.Base.{
  ◌<◌, ◌≤◌, ◌≡◌, refl, false, none, some, [], ◌∷◌, ok, arith, length, count, count-le-length,
}
use fertilesoil.Base.Int.{int_half, wrap64, ◌*ℤ◌, ◌+ℤ◌, ◌-ℤ◌}
use fertilesoil.Api.{DirectoryEvent, create}
use fertilesoil.Storage.Options.{build_options, apply_all, get_page, get_page_size, get_page_offset}
use fertilesoil.Storage.Paging.{copy_page, make_and_read, page_limit, read_from}
use fertilesoil.Storage.SortSlice.{sink, sort_loop, sort_by_created}
use fertilesoil.Storage.DirMap.{DirMap, directory, load_or_store}
use fertilesoil.Storage.Memory.Read
use fertilesoil.Storage.Memory.Write
use fertilesoil.Storage.Memory.Write.{insert_new}
use fertilesoil.Storage.Memory.Descendants
use fertilesoil.Storage.Memory.Tree.{IsTree, directories}
use fertilesoil.Storage.Memory.Children.{is_listed_child}
use fertilesoil.Storage.Notifier.{create_directory, delete_directory, with_notifier, add_wrapper}
use fertilesoil.App.Interfaces.{ReadOnlyClient}
use fertilesoil.App.SqlStorage.{Db, is_directory_tracked, is_directory_info_updated}
use fertilesoil.App.SqlStorage
use fertilesoil.App.Controller.{
  Controller, World, event_of, run, set_ticker, random_ticker_duration, initialize_directories,
  persist_all, persist_if_up_to_date, persist_directory,
}
use fertilesoil.App.Events.{with_sql}
use fertilesoil.App.Once.{Announced}
use fertilesoil.Messaging.Nats.{publish}
use fertilesoil.System.Service.{service}
use fertilesoil.System.Steps.{State, answered, Reach, start, later, creation, deletion}
use fertilesoil.System.Within.{Mirrors}
use fertilesoil.System.Smooth.{signals}
use fertilesoil.System.Started.{empty_db}
use fertilesoil.System.Deployed.{run_over_http-Mirrors}
use fertilesoil.Client.ReadOnly.{http_client}
use fertilesoil.Client.Calls
use fertilesoil.Client.Calls.{do_raw, new_full_http_client}
use fertilesoil.Http.Handlers
use fertilesoil.Http.Query.{storage_options_from_get_query, client_query}
use fertilesoil.Http.Strconv.{parse_bool, digits_value, atoi, decimal, itoa}
use fertilesoil.Tests.Client.{wire, front, front-IsConnected}
use fertilesoil.System.Seeded.{LiveBelow}
use fertilesoil.Tests.{time_at, plain, root_dir, around}
use fertilesoil.Tests.System.{controller, notifier, decode}

abbrev m : DirMap
m = (1, directory root_dir) ∷ []

-- The HTTP client over the server, while the map is `m`.
abbrev client : ReadOnlyClient
client = http_client wire front around m

abbrev following : Controller Db
following = record controller { client = some (λ at. client) }

m-IsTree : IsTree m
m-IsTree = (refl, refl, λ p h. ground arith, tt)

m-LiveBelow : LiveBelow 1 m
m-LiveBelow x d within found = ground arith

few : count (is_listed_child m (build_options []) 1) (directories m) ≤ 10
few = omega (arith, count-le-length (is_listed_child m (build_options []) 1) (directories m))

ticking : set_ticker (with_sql (time_at 60) following) 3 (empty_db, []) ≡ (ok tt, (empty_db, []))
unfolding random_ticker_duration wrap64 ◌*ℤ◌ ◌+ℤ◌
ticking = refl

abbrev after : World Db
after = (record { rows = (1, none) ∷ []; faults = [] }, event_of create (time_at 60) root_dir ∷ [])

seeded :
    initialize_directories (with_sql (time_at 60) following) (time_at 60) (empty_db, [])
    ≡ (ok tt, after)
unfolding Calls.get_directory Calls.get_children do_raw new_full_http_client Handlers.get_directory
    Handlers.list_children storage_options_from_get_query client_query parse_bool digits_value atoi
    decimal itoa initialize_directories persist_all persist_if_up_to_date persist_directory
    is_directory_info_updated is_directory_tracked SqlStorage.create_directory Read.get_directory
    Read.collect Descendants.get_children Descendants.get_descendants Descendants.descend
    build_options apply_all get_page get_page_size get_page_offset sort_by_created sort_loop sink
    copy_page make_and_read page_limit read_from wrap64 ◌*ℤ◌ ◌+ℤ◌ ◌-ℤ◌
seeded = refl

abbrev first : State DirectoryEvent
first = record { map = m; wire = []; table = after.0; seen = after.1 }

abbrev second : State DirectoryEvent
second =
    answered first
      (create_directory (service notifier around) (plain 0 (some 1) 20) (first.map, first.wire))

abbrev third : State DirectoryEvent
third = answered second (delete_directory (service notifier around) 4 (second.map, second.wire))

second_small : length second.map < int_half
unfolding create_directory with_notifier add_wrapper publish insert_new load_or_store
    Write.create_directory
second_small = omega arith

third-Reach : Reach notifier decode following false first third
third-Reach =
    later (later start (creation around (plain 0 (some 1) 20) refl refl (λ p h. ground arith)))
      (deletion around 4 (λ p. refl) second_small refl)

run_over_http-Mirrors_example :
    (world : World Db) × (run
        (with_sql (time_at 60) following)
        (time_at 60)
        3
        (signals (time_at 60) decode third.wire)
        (empty_db, [])
      ≡ (ok false, world))
    × Mirrors 1 third.map world.0.rows
    × Announced world
run_over_http-Mirrors_example =
    run_over_http-Mirrors wire front front-IsConnected (λ d. refl) around m (λ p. refl) m-IsTree
      (omega arith) following (time_at 60) refl (λ ev. refl) refl m-LiveBelow few notifier decode
      (λ subject bytes m wire. refl) (λ ev. (ev, refl, refl)) 3 after third ticking seeded
      third-Reach refl refl
