-- ===== src/Gnet/WorkerPool/Stopped.antt =====
-- Nothing enters a pool that was stopped.
use ginx.Prelude.{ℕ, ◌≡◌, refl, ◌∙◌, true, false, [], arith}
use ginx.Gnet.WorkerPool.{
  Pool, start_worker_pool, begin_stop, stop_worker_pool, refused, send_msg, close_queues,
  worker_stopped,
}
use ginx.Gnet.WorkerPool.Steps.{
  World, Step, sends_alone, sends_queued, sends_waits, gets_room, gives_up, takes, starts,
  begins_stop, stops, Reach, here, next,
}
use ginx.Gnet.WorkerPool.Fifo.{take_task-some, not_empty}

module _ {R : Type 0} (get_conn_id : R → ℕ) where
  record IsStopped (w : World R) : Type 0 where
    stopping : w.pool.stopping ≡ true
    not_started : w.pool.started ≡ false
    no_sender : w.pool.senders ≡ []

  send_msg-refused :
      (p : Pool R) (r : R) → p.stopping ≡ true → send_msg get_conn_id p r ≡ refused worker_stopped
  unfolding send_msg
  send_msg-refused p r h = ground (arith, h)

  -- What a stopped pool can still do: take what it has.
  abbrev Keeps : World R → World R → Type 0
  Keeps w w' = IsStopped w' × (w'.accepted ≡ w.accepted) × (w'.pool.launched ≡ w.pool.launched)

  module _ (w : World R) (v : IsStopped w) where
    Step-Keeps : (w' : World R) → Step get_conn_id w w' → Keeps w w'
    Step-Keeps _ (sends_alone r p h) =
        absurd (ground (arith, h, send_msg-refused w.pool r v.stopping))
    Step-Keeps _ (sends_queued r p h) =
        absurd (ground (arith, h, send_msg-refused w.pool r v.stopping))
    Step-Keeps _ (sends_waits r p h) =
        absurd (ground (arith, h, send_msg-refused w.pool r v.stopping))
    Step-Keeps _ (gets_room r before after h room) =
        absurd (not_empty get_conn_id w.pool before after r h v.no_sender)
    Step-Keeps _ (gives_up r before after h) =
        absurd (not_empty get_conn_id w.pool before after r h v.no_sender)
    Step-Keeps _ (takes i r p b h) =
        let (rest, q, e) = take_task-some get_conn_id w.pool p i r h in
        (
          record {
            stopping = ground (arith, e, v.stopping);
            not_started = ground (arith, e, v.not_started);
            no_sender = ground (arith, e, v.no_sender);
          },
          refl,
          ground (arith, e),
        )
    Step-Keeps _ (starts h) =
        unfold start_worker_pool in
        (
          record {
            stopping = ground (arith, v.stopping);
            not_started = ground (arith, v.stopping, v.not_started);
            no_sender = ground (arith, v.stopping, v.no_sender);
          },
          refl,
          ground (arith, v.stopping),
        )
    Step-Keeps _ begins_stop =
        unfold begin_stop in
        (
          record { stopping = refl; not_started = v.not_started; no_sender = v.no_sender },
          refl,
          refl,
        )
    Step-Keeps _ (stops h) =
        unfold stop_worker_pool begin_stop close_queues in
        (
          record {
            stopping = ground (arith);
            not_started = ground (arith, v.not_started);
            no_sender = ground (arith, v.no_sender);
          },
          refl,
          ground (arith),
        )

  Reach-Keeps : (w w' : World R) → IsStopped w → Reach get_conn_id w w' → Keeps w w'
  Reach-Keeps w _ v here = (v, refl, refl)
  Reach-Keeps w w' v (next {v = u} r s) =
      let (k, a, l) = Reach-Keeps w u v r in
      let (k', a', l') = Step-Keeps u k w' s in (k', a' ∙ a, l' ∙ l)

  -- Once a pool that was not stopped before is stopped, which it is while no call waits, no request
  -- is accepted into a queue or given a goroutine of its own, whatever steps follow.
  pub Reach-stop_worker_pool :
      (w w' : World R)
      → w.pool.senders ≡ []
      → w.pool.stop_done ≡ false
      → Reach get_conn_id (record w { pool = stop_worker_pool w.pool }) w'
      → (w'.accepted ≡ w.accepted) × (w'.pool.launched ≡ w.pool.launched)
  Reach-stop_worker_pool w w' h d r =
      let stopped : IsStopped (record w { pool = stop_worker_pool w.pool }) =
        unfold stop_worker_pool begin_stop close_queues in
        record {
          stopping = ground (arith, d);
          not_started = ground (arith, d);
          no_sender = ground (arith, h, d);
        } in
      let same : (stop_worker_pool w.pool).launched ≡ w.pool.launched =
        unfold stop_worker_pool begin_stop close_queues in ground (arith, d) in
      let (k, a, l) = Reach-Keeps (record w { pool = stop_worker_pool w.pool }) w' stopped r in
      (a, l ∙ same)
