-- ===== src/Gnet/WorkerPool/Examples.antt =====
-- Two workers, three requests; a request is the number of its connection.
use ginx.Prelude.{ℕ, ◌%◌, ◌≤◌, ◌≡◌, refl, [], ◌∷◌, ◌++◌, arith, length, All}
use ginx.Gnet.WorkerPool.{
  new_pool, start_worker_pool, stop_worker_pool, begin_stop, take_task, send_msg, enqueue,
  set_queue, close_queues,
}
use ginx.Gnet.WorkerPool.Steps.{World, new_world, sends_queued, takes, starts, Reach, here, next}
use ginx.Gnet.WorkerPool.Order.{of_conn}
use ginx.Gnet.WorkerPool.Fifo.{Reach-new_world}
use ginx.Gnet.WorkerPool.Stopped.{Reach-stop_worker_pool}

abbrev own : ℕ → ℕ
own c = c

abbrev idle : World ℕ
idle = record { pool = start_worker_pool (new_pool 2 4 0); accepted = []; handled = [] }

abbrev one_in : World ℕ
one_in = record idle { pool = enqueue own idle.pool 5; accepted = 5 ∷ [] }

abbrev two_in : World ℕ
two_in = record idle { pool = enqueue own one_in.pool 7; accepted = 5 ∷ 7 ∷ [] }

abbrev one_out : World ℕ
one_out = record two_in {
  pool = record two_in.pool { queues = set_queue two_in.pool.queues 1 (7 ∷ []) };
  handled = 5 ∷ [];
}

busy : Reach own (new_world 2 4 0) one_out
unfolding start_worker_pool new_pool send_msg take_task
busy =
    next
      (next (next (next here (starts refl)) (sends_queued 5 one_in.pool refl))
        (sends_queued 7 two_in.pool refl))
      (takes 1 5 one_out.pool (omega arith) refl)

Reach-new_world_example :
    ((i : ℕ) → All (λ r. r % 2 ≡ i) (one_out.pool.queues i))
    × ((i : ℕ) → length (one_out.pool.queues i) ≤ 4)
    × ((c : ℕ)
        → of_conn own c (5 ∷ 7 ∷ [])
          ≡ of_conn own c (5 ∷ []) ++ of_conn own c (one_out.pool.queues (c % 2)))
unfolding start_worker_pool new_pool
Reach-new_world_example = Reach-new_world own 2 4 0 one_out busy

abbrev stopped : World ℕ
stopped = record one_out { pool = stop_worker_pool one_out.pool }

abbrev drained : World ℕ
drained = record stopped {
  pool = record stopped.pool { queues = set_queue stopped.pool.queues 1 [] };
  handled = 5 ∷ 7 ∷ [];
}

draining : Reach own stopped drained
unfolding stop_worker_pool begin_stop start_worker_pool new_pool take_task close_queues
draining = next here (takes 1 7 drained.pool (omega arith) refl)

Reach-stop_worker_pool_example :
    (drained.accepted ≡ one_out.accepted) × (drained.pool.launched ≡ one_out.pool.launched)
Reach-stop_worker_pool_example =
    Reach-stop_worker_pool own one_out drained (unfold start_worker_pool new_pool in refl)
      (unfold start_worker_pool new_pool in refl) draining
