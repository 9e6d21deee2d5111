-- ===== src/Lib.antt =====
-- fertilesoil: the directory tree server and its application framework, as definitions and theorems.
--
-- The program keeps a forest of directories. A storage driver (storage/interface.go) holds it: the
-- in-memory driver (storage/memory/memory.go), or the one on CockroachDB
-- (storage/crdb/driver/driver.go). A wrapper (storage/notifier/notifier.go) tells a notifier of every
-- write, which publishes to NATS (notifier/nats/nats.go). The HTTP server
-- (internal/httpsrv/treemanager/treemanager.go) serves the driver, and the client (client/v1/) calls
-- the server. Applications follow the forest: a controller (app/v1/) takes the events from NATS
-- (client/v1/nats/nats.go), and keeps a table of the directories that it tracks.
--
-- Files:
--   Base: shared names. Base/Results is how calls end (storage/errors.go: a value, an error, an
--     error beside a value, a panic), Base/Actions calls on a state, Base/Int Go's 64-bit int,
--     Base/Count lists as collections.
--   Api: the data (api/v1/types.gen.go, api/v1/typeshelpers.go, api/v1/event.go).
--   Storage/Options: storage/options.go. Storage/Paging: how the driver cuts a page out of a list.
--   Storage/DirMap, Storage/SortSlice: sync.Map and sort.Slice as the driver uses them.
--   Storage/Memory: the in-memory driver. Write has CreateRoot, CreateDirectory, UpdateDirectory; Read
--     has GetDirectory and ListRoots; Descendants has getChildren and GetChildren; Ancestors has
--     GetParents and GetParentsUntilAncestor; Delete has DeleteDirectory. The other children hold
--     theorems, and Tree the invariant.
--   Storage/Crdb: the CockroachDB driver. Table has the table (storage/crdb/migrations/) and what the
--     statements do to it, Recursive the recursive queries, Driver the calls. The other children hold
--     theorems: Entries the table as a map, Rounds and Children the queries downwards, Parents and
--     Ancestors those upwards, Statements and Deletion the writes, Agreement both drivers,
--     Roots the listing of the roots, Served that the reading calls change nothing.
--   Storage/Interface: DirectoryAdmin, and the in-memory driver as one.
--   Storage/Notifier: storage/notifier/notifier.go over any DirectoryAdmin.
--   App/SqlStorage: app/v1/sql/storage.go. App/Callback: app/v1/callback/callback.go.
--     App/Controller: app/v1/controllerimpl.go and app/v1/fullsubtree_reconciler.go.
--     Tracking, Events and Seeding hold theorems on the table, on events, on full reconciliation,
--     Once and Runs on what the reconciler is told over a run, Retried on a second attempt.
--   Http/Strconv, Http/Query, Http/Link, Http/Handlers: the server's query parser, links and handlers,
--     over any DirectoryAdmin, and the query of the client (client/v1/impl.go). Keeps is what a driver
--     must keep for the server to keep it, Server how the server is put together
--     (internal/httpsrv/treemanager/config.go, internal/httpsrv/common/common.go).
--   Http/Engine: the routes, with authentication (newHandler, DefaultEngine).
--   Cmd: the command serve (cmd/serve.go). Settings has the flags with the helpers that read them
--     (notifier/nats/utils/utils.go, storage/crdb/utils/utils.go), Serve the start of the server; ReadOnly
--     holds theorems.
--   Client: Calls has the calls of the client, Server the routes of the server and the server as what
--     the client is connected to, Config its configuration (client/v1/cfg.go), ReadOnly the client as the
--     controller uses it; Served and Missing hold theorems.
--   Messaging: Nats has the notifiers and the watcher, Delivery the way of an event to an application.
--   System: the service (the notifying storage over the in-memory driver, with the NATS notifier) and an
--     application that follows it. Tracker is what the table says and how an event changes it, Subtree
--     and Within the directories that the table should hold, Service the writes with their messages,
--     Steps what the system may do, Mirror the invariant, Requests, Deletions, Deliveries and Reached that
--     each step keeps it, Smooth and Delivered the handling of the messages, Seeded and Started a run
--     from an empty table, Deployed the same with the HTTP client.
--   Tests: concrete data and the theorems at it.
--
-- State and foreign code: the map is an association list, newest entry first; a Range visits it in
-- an order `visit` that is an argument, of which theorems assume only that it has the same entries.
-- New UUIDs, clock readings, random draws, the signals of Run, the UUID parser, what gin and the
-- JSON decoder read of a request, and the retry wrapper of the notifier are arguments. sort.Slice
-- is the insertion sort that it runs on up to 12 elements; on longer slices Go's order among equal
-- creation times may differ. A statement of SQL is read as the standard says: a scan visits the
-- rows in an order `scan` that is an argument, and ORDER BY sorts what the scan gives, so rows of
-- the same time come in any order that the scan gives them. The answer of a recursive query is its
-- rounds one after the other, each row once; SQL promises no order there, and the driver relies on
-- this one. The table keeps the newest row on top. The application's table takes a fault for each of
-- its statements: it succeeds, it is refused, or it runs and its answer cannot be read or is cut
-- off. Run asks the client for what it answers at the time of each signal.
-- The connection of the client, the JSON codec, the text of a UUID, gin's router and
-- the JetStream context are arguments, with laws as named hypotheses: IsConnected, and of the stream
-- `ordered` (it takes every message and keeps the order) and `faithful` (a message decodes to the event
-- that was encoded). A pointer that the driver hands out is modelled by its value; where a call writes
-- through it, the map is written. The steps of System are those of the service and of one application;
-- the clock of the application's database stands still during a run.
--
-- Fuel: a recursive query gets one round for each row of the table and one more; each round but the
-- last finds a row, and no row is found twice. The loops that follow parents, and the loop that
-- extends the slice of children, get one round for each entry of the map and one more. On a tree
-- this is enough, since a parent stands below its child in the map; the entries on endings below
-- rest on it.
--
-- Not modelled: JSON, audit, the HTTP engine and the shutdown of the server (internal/httpsrv/common),
-- cobra, viper and the signals of the command line (cmd), migrations, the Unix socket of the client: calls
-- of foreign code only. What authentication and viper answer is an argument. Locking and transactions:
-- each call is one step.
pub mod Base
pub mod Api
pub mod Storage
pub mod App
pub mod Http
pub mod Client
pub mod Messaging
pub mod Cmd
pub mod System
pub mod Tests
