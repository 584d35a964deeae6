-- ===== src/Gnet/WorkerPool/Steps.antt =====
-- What the connections, the workers and the server do to a pool, one step after another.
use ginx.Prelude.{ℕ, ◌<◌, ◌≡◌, true, some, List, [], ◌∷◌, ◌++◌}
use ginx.GoMap.{size}
use ginx.Gnet.WorkerPool.{
  Pool, new_pool, start_worker_pool, begin_stop, stop_worker_pool, take_task, launches, queued,
  waits, send_msg, send_waiting, has_room,
}

-- The pool, and what has come out of it: the requests that were put into a queue and those that a
-- worker was given, in order.
pub record World (R : Type 0) : Type 0 where
  pub pool : Pool R
  pub accepted : List R
  pub handled : List R

abbrev pub new_world : {R : Type 0} → ℕ → ℕ → ℕ → World R
new_world size capacity wait_time = record {
  pool = new_pool size capacity wait_time;
  accepted = [];
  handled = [];
}

module _ {R : Type 0} (get_conn_id : R → ℕ) where
  pub data Step (w : World R) : World R → Type 0 where
    sends_alone :
        (r : R) (p : Pool R)
        → send_msg get_conn_id w.pool r ≡ launches p
        → Step w (record w { pool = p })
    sends_queued :
        (r : R) (p : Pool R)
        → send_msg get_conn_id w.pool r ≡ queued p
        → Step w (record w { pool = p; accepted = w.accepted ++ r ∷ [] })
    sends_waits :
        (r : R) (p : Pool R)
        → send_msg get_conn_id w.pool r ≡ waits p
        → Step w (record w { pool = p })
    gets_room :
        (r : R) (before after : List R)
        → w.pool.senders ≡ before ++ r ∷ after
        → has_room get_conn_id w.pool r ≡ true
        → Step w (record w {
          pool = send_waiting get_conn_id w.pool before r after;
          accepted = w.accepted ++ r ∷ [];
        })
    gives_up :
        (r : R) (before after : List R)
        → w.pool.senders ≡ before ++ r ∷ after
        → Step w (record w { pool = record w.pool { senders = before ++ after } })
    takes :
        (i : ℕ) (r : R) (p : Pool R)
        → i < w.pool.size
        → take_task w.pool i ≡ some (r, p)
        → Step w (record w { pool = p; handled = w.handled ++ r ∷ [] })
    starts : w.pool.senders ≡ [] → Step w (record w { pool = start_worker_pool w.pool })
    begins_stop : Step w (record w { pool = begin_stop w.pool })
    stops : w.pool.senders ≡ [] → Step w (record w { pool = stop_worker_pool w.pool })

  pub data Reach (w : World R) : World R → Type 0 where
    here : Reach w w
    next : {v u : World R} → Reach w v → Step v u → Reach w u
