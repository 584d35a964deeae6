-- ===== src/Lib.antt =====
-- Ginx, a game server framework in Go: what its core computes and keeps, and the theorems about it.
--
-- A server accepts TCP connections. Each connection reads length-prefixed packets from its stream
-- (gnet/datapack.go), counts them and their bytes (metrics/metrics.go), may limit their rate
-- (limit/token_bucket.go), and hands them to the worker of its number, which routes them
-- (gnet/msghandler.go); it sends packets through one queue (gnet/connection.go). The connections of a
-- server are registered by number (gnet/connmanager.go). On top of this an application may use a
-- message format of its own inside the packets (gcore/protocol.go), rooms that broadcast to their
-- members (gcore/room.go), a grid of who sees whom (gcore/aoi.go), sessions that tie accounts and
-- players to connections (session/session.go, session/legacy.go), a store of players
-- (persist/memory.go, persist/json_file.go). The server itself starts, accepts, runs a task for each
-- connection and is shut down (gnet/server.go). Two applications are modelled: the game service, which
-- ties logins, connections and rooms together (examples/gameapp/service.go) and has rules of progress
-- (examples/gameapp/progress.go), and the Unity world with its wire format (examples/unity).
--
-- The files, by the code that they model:
--   Gnet/Config       utils/globalobj.go, gnet/config.go: the configuration record, its defaults
--   Gnet/Message      gnet/message.go
--   Gnet/DataPack     gnet/datapack.go: `pack`, `unpack` and `read_message` are Pack, Unpack and
--                     ReadMessage; Stream is io.Reader with io.ReadFull
--   Gnet/ConnManager  gnet/connmanager.go: Add, Remove, Get, Len, ClearConn
--   Gnet/MsgHandle    gnet/msghandler.go: AddRouter, DoMsgHandler with its deferred function, a worker
--   Gnet/WorkerPool   gnet/msghandler.go: the queues, SendMsgToTaskQueue, the start and the stop
--   Gnet/Connection   gnet/connection.go: send, writeFull, the properties, StartReader
--   Gnet/Server       gnet/server.go: `start_with_error`, the points of startAccept (`accept_conn`,
--                     `accept_error`, `register`), of startConnection (`task_step`) and of Shutdown
--                     with shutdown (`shutdown_call`, `shutdown_step`), run in any order by `run`;
--                     of gnet/msghandler.go what the shutdown waits for: `workers` and `routers`
--   Gcore/Protocol    gcore/protocol.go: Encode and DecodeGameMessage
--   Gcore/Room        gcore/room.go: a room; Gcore/Room/Manager is its registry, with the rooms
--                     behind references, because a caller may hold a room that was removed
--   Gcore/Aoi         gcore/aoi.go: entities, cells, moves and neighbours
--   Session           session/session.go: the four maps of the sessions; Session/Login is
--                     session/legacy.go
--   Persist/Memory    persist/player.go, persist/memory.go
--   Persist/JsonFile  persist/json_file.go: the same operations on one file
--   Limit/TokenBucket limit/token_bucket.go
--   Metrics           metrics/metrics.go
--   Gameapp/Progress  examples/gameapp/progress.go: the checks, the starter reward, the use of an item
--   Gameapp/Service   examples/gameapp/service.go: the state and its helpers; Setup is New, Login is
--                     Login, Requests is what a connection or a token asks for, Closing is Sweep and
--                     Close
--   Unity/Varint, Unity/Fields, Unity/Messages
--                     examples/unity/protocol.go: numbers, fields, and the messages by kind
--   Unity/World       examples/unity/world.go: the players, their PIDs and their places on the grid;
--                     Unity/World/Broadcast sends to those in sight, or to all
-- Prelude, GoMap and Sort are Go itself: numbers, slices, a value with an error, the built-in map,
-- sort.Slice on identifiers. A file with children keeps the definitions; the children prove what
-- their names say, and Examples runs the code on small inputs and applies the theorems there.
--
-- How the code is rendered. State is a record, an operation a function to the new state or to
-- `Result`, whose errors are constructors. A method that holds its lock is one step. Unsigned words
-- are natural numbers whose wrap-around is written out; Go's `int` is `ℤ`, for values inside 64 bits.
-- A reading of the clock is an argument; time is a natural number, and 0 is the zero time. A map is
-- an association list; what a `range` over it gives is stated by lookups, or sorted. A nil pointer is
-- `none` where the code tests for it; nil receivers are left out.
--
-- What is outside the repository is a parameter: IEEE doubles in Gcore/Aoi (their tests and
-- `int(math.Floor(x / w))`) and in Limit/TokenBucket (their arithmetic), encoding/json in Persist/JsonFile and Gameapp/Progress, io.Writer in
-- Gnet/Connection, the token of crypto/rand in Session (an argument, which a theorem asks to be
-- unused where that matters), bcrypt in Gameapp/Service, the widening of a `float32` in Unity/World, and
-- the connections, routers and callbacks of an application. What a
-- theorem relies on of these is a hypothesis of its own: `ReadsBack`, `Writes`, `IsRounded`.
--
-- Bounds and fuel. `write_full` takes a round for each byte at most. `start_reader` takes fuel; its
-- theorem holds for any fuel above the number of messages. `decode_rounds` takes a round for each byte
-- at most, since a field takes one at least. Every other loop is over a list.
-- The steps that a shutdown has left are counted by `effort`. The queues of a worker pool have a
-- capacity above 0.
--
-- Not modelled: the writer loop and the deadlines of a connection, sockets and hooks, the logger, the
-- WebSocket bridge, loading of configuration, the routers of examples/unityserver, the web example, the
-- HTTP and TCP entry points of examples/gameapp, generated code, and everything that is printed.
-- Allocation, the memory model and the fairness of goroutines are left out. A receiver that a decoder
-- of examples/unity has partly filled when it fails is left out too: no caller reads it.
pub mod Gameapp
pub mod Gcore
pub mod Gnet
pub mod GoMap
pub mod Limit
pub mod Metrics
pub mod Persist
pub mod Prelude
pub mod Session
pub mod Sort
pub mod Unity
