-- ===== src/Gnet/Server.antt =====
-- gnet/server.go: the life of a server, as what its goroutines do one after the other: the accept loop,
-- a task for each connection, and the shutdown. An event whose goroutine is not at that point changes
-- nothing. A connection is its identifier here; the socket and the hooks are the outside.
pub mod Stopping
pub mod Invariant
pub mod Accepting
pub mod Tasks
pub mod Shutdown
pub mod Pool
pub mod Begun
pub mod Done
pub mod Draining
pub mod Effort
pub mod Completion
mod Examples
use ginx.Prelude.{
  ℕ, ◌+◌, ◌-◌, ◌%◌, ◌^◌, Bool, true, false, not, ◌&&◌, ◌||◌, Option, none, some, List, [], ◌∷◌,
  if◌then◌else◌, ◌==◌, nat_eq, string_eq, ok, err, ◌>>=◌, ◌>>◌, pos, negsuc, int_eq,
}
use ginx.GoMap.{GoMap, get, put, delete, size}
use ginx.Gnet.Config.{Config, effective_config}
use ginx.Gnet.ConnManager.{ConnManager, new_conn_manager, add, remove, clear_conn}
use ginx.Metrics.{Metrics, new_metrics, add_connections}

pub data StartError : Type 0 where
  net_closed listen_failed : StartError

-- Where the accept loop is: before it starts, in `AcceptTCP`, with a new connection, or over.
pub data AcceptPhase : Type 0 where
  idle waiting exited : AcceptPhase
  holding : ℕ → AcceptPhase

-- Where the task of a connection is: in the start hook, in `wait`, in the stop hook, or behind it.
pub data TaskPhase : Type 0 where
  starting running stopping leaving : TaskPhase

-- `stopped` is set by the connection's `Stop`.
pub record Task : Type 0 where
  pub phase : TaskPhase
  pub stopped : Bool

-- How far the shutdown has come.
pub data ShutdownPhase : Type 0 where
  not_called called closed cleared drained queues_closed done : ShutdownPhase

-- `workers` and `routers` make up `workerPoolWait`: the workers that have not returned, and the requests
-- that run in a goroutine of their own.
pub record Server : Type 0 where
  pub start_once : Bool
  pub start_err : Option StartError
  pub stopped : Bool
  pub listening : Bool
  pub accept : AcceptPhase
  pub cid : ℕ
  pub conn_mgr : ConnManager ℕ
  pub tasks : GoMap ℕ Task
  pub metrics : Metrics
  pub pool_size : ℕ
  pub pool_started : Bool
  pub pool_stopping : Bool
  pub workers : ℕ
  pub routers : ℕ
  pub shutdown : ShutdownPhase

pub new_server : Config → Option Config → Server
new_server global config = record {
  start_once = false;
  start_err = none;
  stopped = false;
  listening = false;
  accept = idle;
  cid = 0;
  conn_mgr = new_conn_manager config;
  tasks = [];
  metrics = new_metrics;
  pool_size = (effective_config global config).worker_pool_size;
  pool_started = false;
  pool_stopping = false;
  workers = 0;
  routers = 0;
  shutdown = not_called;
}

-- `signalStop`: setting the flag again changes nothing.
abbrev pub signal_stop : Server → Server
signal_stop s = record s { stopped = true }

-- `StartWorkerPool`: with a pool of no workers nothing is started.
abbrev pub start_pool : Server → Server
start_pool s =
    if s.pool_size == 0 || s.pool_stopping
    then s
    else record s { pool_started = true; workers = s.pool_size }

-- The body of `startOnce.Do`, by whether the address was found and could be listened on.
abbrev pub start_body : Bool → Server → Server
start_body listens s =
    if s.stopped
    then record s { start_once = true; start_err = some net_closed }
    else if listens
    then start_pool (record s { start_once = true; listening = true; accept = waiting })
    else record s { start_once = true; start_err = some listen_failed; stopped = true }

pub start_with_error : Bool → Server → Option StartError × Server
start_with_error listens s =
    let s' = if s.start_once then s else start_body listens s in
    (
      elim s'.start_err [ some e ↦ some e | none ↦ if s'.stopped then some net_closed else none ],
      s',
    )

-- The loop ends if the server was stopped while it waited.
pub accept_conn : Server → Server
accept_conn s = elim s.accept [
  | waiting ↦
      if s.stopped
      then record s { accept = exited }
      else record s { accept = holding s.cid; cid = (s.cid + 1) % 2 ^ 32 }
  | _ ↦ s
]

pub accept_error : Server → Server
accept_error s = elim s.accept [
  | waiting ↦ if s.stopped then record s { accept = exited } else s
  | _ ↦ s
]

-- Under the lock of the listener: the server is looked at again before the connection is kept.
abbrev pub keep : Server → ℕ → ConnManager ℕ → Server
keep s id conn_mgr = record s {
  accept = waiting;
  conn_mgr = conn_mgr;
  metrics = add_connections s.metrics (pos 1);
  tasks = put id (record { phase = starting; stopped = false }) s.tasks;
}

module _ (global : Config) where
  pub register : Server → Server
  register s = elim s.accept [
    | holding id ↦
        if s.stopped
        then record s { accept = exited }
        else elim (add (λ (c : ℕ). c) global s.conn_mgr (some id)) [
          | err x ↦ record s { accept = waiting }
          | ok conn_mgr ↦ keep s id conn_mgr
        ]
    | _ ↦ s
  ]

-- `Stop` of a connection.
pub stop_task : ℕ → GoMap ℕ Task → GoMap ℕ Task
stop_task id tasks = elim (get id tasks) [
  | none ↦ tasks
  | some task ↦ put id (record task { stopped = true }) tasks
]

-- The next point of a connection's task; `wait` returns once the connection was stopped.
abbrev pub next_phase : Task → Task
next_phase task = elim task.phase [
  | starting ↦ record task { phase = running }
  | running ↦ if task.stopped then record task { phase = stopping } else task
  | stopping ↦ record task { phase = leaving }
  | leaving ↦ task
]

-- The last step takes the connection out of the manager and of the count.
abbrev pub finish : Server → ℕ → Server
finish s id = record s {
  conn_mgr = remove s.conn_mgr id;
  metrics = add_connections s.metrics (negsuc 0);
  tasks = delete id s.tasks;
}

pub task_step : ℕ → Server → Server
task_step id s = elim (get id s.tasks) [
  | none ↦ s
  | some task ↦ elim task.phase [
    | leaving ↦ finish s id
    | _ ↦ record s { tasks = put id (next_phase task) s.tasks }
  ]
]

-- The reader of a connection hands a request on: without workers it runs in a goroutine of its own. With
-- workers it goes through a queue, which is Gnet/WorkerPool.
abbrev pub reads : TaskPhase → Bool
reads running = true
reads _ = false

pub route : ℕ → Server → Server
route id s = elim (get id s.tasks) [
  | none ↦ s
  | some task ↦
      if reads task.phase && not s.pool_stopping && not s.pool_started
      then record s { routers = s.routers + 1 }
      else s
]

-- A router that runs in a goroutine of its own returns.
pub router_ends : Server → Server
router_ends s = record s { routers = s.routers - 1 }

-- A worker returns once its queue is closed and it has handled what was left in it.
pub worker_ends : Server → Server
worker_ends s = elim s.shutdown [ queues_closed ↦ record s { workers = s.workers - 1 } | _ ↦ s ]

-- The first call of `Shutdown`: the worker pool takes nothing any more.
pub shutdown_call : Server → Server
shutdown_call s = elim s.shutdown [
  | not_called ↦ record s { stopped = true; pool_stopping = true; shutdown = called }
  | _ ↦ s
]

-- `connWait` is at zero.
abbrev pub all_over : Server → Bool
all_over s = size s.tasks == 0 && elim s.accept [ idle ↦ true | exited ↦ true | _ ↦ false ]

-- `workerPoolWait` is at zero.
abbrev pub pool_over : Server → Bool
pool_over s = s.workers == 0 && s.routers == 0

-- The next step of `shutdown`: close the listener, clear the connections, wait for them, and in
-- `StopWorkerPool` close the queues and wait for the workers and the routers. No call of
-- `SendMsgToTaskQueue` holds the lock of the queues then: those are made by the readers of connections.
pub shutdown_step : Server → Server
unfolding stop_task
shutdown_step s = elim s.shutdown [
  | called ↦ record s { listening = false; shutdown = closed }
  | closed ↦
      let (conn_mgr, tasks) = clear_conn stop_task s.conn_mgr s.tasks in
      record s { conn_mgr = conn_mgr; tasks = tasks; shutdown = cleared }
  | cleared ↦ if all_over s then record s { shutdown = drained } else s
  | drained ↦ record s { pool_stopping = true; pool_started = false; shutdown = queues_closed }
  | queues_closed ↦ if pool_over s then record s { shutdown = done } else s
  | _ ↦ s
]

pub data Event : Type 0 where
  starts : Bool → Event
  accepts accept_fails registers : Event
  conn_stops task_steps routes : ℕ → Event
  router_returns worker_returns : Event
  shuts_down shutdown_steps : Event

module _ (global : Config) where
  pub step : Server → Event → Server
  unfolding start_with_error accept_conn accept_error register stop_task task_step shutdown_call
      shutdown_step route router_ends worker_ends
  step s (starts listens) = (start_with_error listens s).1
  step s accepts = accept_conn s
  step s accept_fails = accept_error s
  step s registers = register global s
  step s (conn_stops id) = record s { tasks = stop_task id s.tasks }
  step s (task_steps id) = task_step id s
  step s (routes id) = route id s
  step s router_returns = router_ends s
  step s worker_returns = worker_ends s
  step s shuts_down = shutdown_call s
  step s shutdown_steps = shutdown_step s

  pub run : Server → List Event → Server
  unfolding step
  run s [] = s
  run s (e ∷ es) = run (step s e) es
