-- ===== src/Gnet/WorkerPool.antt =====
-- gnet/msghandler.go: the queues between the connections and the workers. A channel is a list, which
-- a worker takes from at the front; its capacity is above 0. A sender that waits holds the read lock,
-- so that neither `StartWorkerPool` nor `StopWorkerPool` changes the queues meanwhile; the other
-- goroutines go on. A request is what `GetConnId` of its connection is asked of.
pub mod Steps
pub mod Order
pub mod Fifo
pub mod Stopped
mod Examples
use ginx.Prelude.{
  ℕ, ◌+◌, ◌%◌, Bool, true, false, not, ◌||◌, Option, none, some, List, [], ◌∷◌, ◌++◌, ltb,
  if◌then◌else◌, ◌==◌, nat_eq, length, ◌>>=◌, ◌>>◌,
}
use ginx.GoMap.{size}

pub data SendError : Type 0 where
  worker_stopped queue_full wait_timeout context_done : SendError

-- `senders` are the calls that wait in their `select`; `launched` the requests that were given a
-- goroutine of their own.
pub record Pool (R : Type 0) : Type 0 where
  pub size : ℕ
  pub capacity : ℕ
  pub wait_time : ℕ
  pub start_done : Bool
  pub started : Bool
  pub stopping : Bool
  pub stop_done : Bool
  pub closed : Bool
  pub queues : ℕ → List R
  pub senders : List R
  pub launched : List R

module _ {R : Type 0} where
  pub new_pool : ℕ → ℕ → ℕ → Pool R
  new_pool size capacity wait_time = record {
    size = size;
    capacity = capacity;
    wait_time = wait_time;
    start_done = false;
    started = false;
    stopping = false;
    stop_done = false;
    closed = false;
    queues = λ i. [];
    senders = [];
    launched = [];
  }

  -- The start runs once, and makes the queues; after the stop signal it does nothing.
  pub start_worker_pool : Pool R → Pool R
  start_worker_pool p =
      if p.size == 0 || p.start_done
      then p
      else if p.stopping
      then record p { start_done = true }
      else record p { start_done = true; started = true; queues = λ i. [] }

  pub begin_stop : Pool R → Pool R
  begin_stop p = record p { stopping = true }

  -- The queues are closed once; the workers go on until theirs are empty.
  close_queues : Pool R → Pool R
  close_queues p =
      if p.stop_done
      then p
      else if p.started
      then record p { stop_done = true; closed = true; started = false }
      else record p { stop_done = true }

  pub stop_worker_pool : Pool R → Pool R
  unfolding begin_stop close_queues
  stop_worker_pool p = close_queues (begin_stop p)

  abbrev pub set_queue : (ℕ → List R) → ℕ → List R → ℕ → List R
  set_queue queues i q j = if i == j then q else queues j

  -- A worker takes the front of its queue.
  pub take_task : Pool R → ℕ → Option (R × Pool R)
  take_task p i = elim (p.queues i) [
    | [] ↦ none
    | r ∷ rest ↦ some (r, record p { queues = set_queue p.queues i rest })
  ]

-- How a call of `SendMsgToTaskQueue` gets past its first checks.
pub data Entered (R : Type 0) : Type 0 where
  refused : SendError → Entered R
  launches queued waits : Pool R → Entered R

module _ {R : Type 0} (get_conn_id : R → ℕ) where
  abbrev pub worker_of : Pool R → R → ℕ
  worker_of p r = get_conn_id r % p.size

  abbrev pub has_room : Pool R → R → Bool
  has_room p r = ltb (length (p.queues (worker_of p r))) p.capacity

  -- `queue <- request`
  abbrev pub enqueue : Pool R → R → Pool R
  enqueue p r = record p {
    queues = set_queue p.queues (worker_of p r) (p.queues (worker_of p r) ++ r ∷ []);
  }

  pub send_msg : Pool R → R → Entered R
  send_msg p r =
      if p.stopping
      then refused worker_stopped
      else if not p.started
      then launches (record p { launched = p.launched ++ r ∷ [] })
      else if p.wait_time == 0
      then (if has_room p r then queued (enqueue p r) else refused queue_full)
      else waits (record p { senders = p.senders ++ r ∷ [] })

  -- A waiting call whose request finds room.
  pub send_waiting : Pool R → List R → R → List R → Pool R
  send_waiting p before r after = enqueue (record p { senders = before ++ after }) r
