-- ===== src/Gnet/WorkerPool/Fifo.antt =====
-- Over any steps of the connections, the workers and the server.
use ginx.Prelude.{
  ℕ, ◌%◌, ◌≤◌, ◌≡◌, refl, sym, subst, fun_ext, ◌≢◌, inl, inr, Bool, true, false, ◌||◌, some, List,
  [], ◌∷◌, ◌++◌, arith, ◌==◌, nat_eq, Bool-cases, length, All,
}
use ginx.GoMap.{size}
use ginx.Gnet.WorkerPool.{
  Pool, new_pool, start_worker_pool, begin_stop, stop_worker_pool, take_task, launches, queued,
  waits, send_msg, send_waiting, has_room, enqueue, set_queue, close_queues,
}
use ginx.Gnet.WorkerPool.Steps.{
  World, new_world, Step, sends_alone, sends_queued, sends_waits, gets_room, gives_up, takes,
  starts, begins_stop, stops, Reach, here, next,
}
use ginx.Gnet.WorkerPool.Order.{of_conn, IsOrdered, put_behind, take_front}

module _ {R : Type 0} (get_conn_id : R → ℕ) where
  -- Nothing is queued and nobody waits before the pool has started.
  pub record Agrees (size capacity : ℕ) (start_done started : Bool) (queues : ℕ → List R)
      (senders accepted handled : List R) : Type 0 where
    pub ordered : IsOrdered get_conn_id size capacity queues accepted handled
    pub no_queue : start_done ≡ false → (i : ℕ) → queues i ≡ []
    pub no_start : start_done ≡ false → started ≡ false
    pub no_sender : start_done ≡ false → senders ≡ []

  -- The rest of a pool does not matter.
  abbrev pub IsSound : World R → Type 0
  IsSound w =
      Agrees w.pool.size w.pool.capacity w.pool.start_done w.pool.started w.pool.queues
        w.pool.senders w.accepted w.handled

  new_world-IsSound : (size capacity wait_time : ℕ) → IsSound (new_world size capacity wait_time)
  unfolding new_pool
  new_world-IsSound size capacity wait_time = record {
    ordered = record { routed = λ i. tt; bounded = λ i. omega arith; in_order = λ c. refl };
    no_queue = λ h i. refl;
    no_start = λ h. refl;
    no_sender = λ h. refl;
  }

  -- The pool that a call of each kind leaves.
  send_msg-launches :
      (p p' : Pool R) (r : R)
      → send_msg get_conn_id p r ≡ launches p'
      → p' ≡ record p { launched = p.launched ++ r ∷ [] }
  unfolding send_msg
  send_msg-launches p p' r h = ground (arith, h)

  send_msg-queued :
      (p p' : Pool R) (r : R)
      → send_msg get_conn_id p r ≡ queued p'
      → (p' ≡ enqueue get_conn_id p r)
        × (p.started ≡ true)
        × (has_room get_conn_id p r ≡ true)
        × (p.stopping ≡ false)
  unfolding send_msg
  send_msg-queued p p' r h =
      (ground (arith, h), ground (arith, h), ground (arith, h), ground (arith, h))

  send_msg-waits :
      (p p' : Pool R) (r : R)
      → send_msg get_conn_id p r ≡ waits p'
      → (p' ≡ record p { senders = p.senders ++ r ∷ [] }) × (p.started ≡ true)
  unfolding send_msg
  send_msg-waits p p' r h = (ground (arith, h), ground (arith, h))

  pub take_task-some :
      (p p' : Pool R) (i : ℕ) (r : R)
      → take_task p i ≡ some (r, p')
      → (rest : List R) × (p.queues i ≡ r ∷ rest)
        × (p' ≡ record p { queues = set_queue p.queues i rest })
  unfolding take_task
  take_task-some p p' i r h = go (p.queues i) refl
    where
      go :
          (q : List R)
          → p.queues i ≡ q
          → (rest : List R) × (p.queues i ≡ r ∷ rest)
            × (p' ≡ record p { queues = set_queue p.queues i rest })
      go [] e = absurd (ground (arith, h, e))
      go (s ∷ rest) e = (rest, ground (arith, h, e), ground (arith, h, e))

  pub not_empty :
      (p : Pool R) (before after : List R) (r : R)
      → p.senders ≡ before ++ r ∷ after
      → p.senders ≢ []
  not_empty p [] after r h e = absurd (ground (arith, h, e))
  not_empty p (b ∷ before) after r h e = absurd (ground (arith, h, e))

  module _ (w : World R) (v : IsSound w) where
    -- Once the start was made, only the order matters.
    begun :
        (started : Bool) (queues : ℕ → List R)
        → IsOrdered get_conn_id w.pool.size w.pool.capacity queues w.accepted w.handled
        → Agrees w.pool.size w.pool.capacity true started queues w.pool.senders w.accepted w.handled
    begun started queues o = record {
      ordered = o;
      no_queue = λ d. absurd (ground (arith, d));
      no_start = λ d. absurd (ground (arith, d));
      no_sender = λ d. absurd (ground (arith, d));
    }

    halted :
        Agrees w.pool.size w.pool.capacity w.pool.start_done false w.pool.queues w.pool.senders
          w.accepted w.handled
    halted = record {
      ordered = v.ordered;
      no_queue = v.no_queue;
      no_start = λ d. refl;
      no_sender = v.no_sender;
    }

    start-IsSound : IsSound (record w { pool = start_worker_pool w.pool })
    unfolding start_worker_pool
    start-IsSound = elim (Bool-cases (w.pool.size == 0 || w.pool.start_done)) [
      | inl e ↦ rw e v
      | inr e ↦
          let off : w.pool.start_done ≡ false = ground (arith, e) in
          let empty : w.pool.queues ≡ (λ i. []) = fun_ext (v.no_queue off) in
          elim (Bool-cases w.pool.stopping) [
            | inl f ↦ rw (e, f) (begun w.pool.started w.pool.queues v.ordered)
            | inr f ↦
                rw (e, f)
                  (begun true (λ i. [])
                    (subst
                      (λ q.
                        IsOrdered get_conn_id w.pool.size w.pool.capacity q w.accepted w.handled)
                      empty v.ordered))
          ]
    ]

    stop-IsSound : IsSound (record w { pool = stop_worker_pool w.pool })
    unfolding stop_worker_pool begin_stop close_queues
    stop-IsSound = elim (Bool-cases w.pool.stop_done) [
      | inl e ↦ rw e v
      | inr e ↦ elim (Bool-cases w.pool.started) [
        | inl f ↦ rw (e, f) halted
        | inr f ↦ rw (e, f) halted
      ]
    ]

    Step-IsSound : (w' : World R) → Step get_conn_id w w' → IsSound w'
    Step-IsSound _ (sends_alone r p h) =
        let e = send_msg-launches w.pool p r h in
        subst (λ q. IsSound (record w { pool = q })) (sym e) v
    Step-IsSound _ (sends_queued r p h) =
        let (e, on, room, q) = send_msg-queued w.pool p r h in
        subst (λ q. IsSound (record w { pool = q; accepted = w.accepted ++ r ∷ [] })) (sym e)
          (record {
            ordered =
                put_behind get_conn_id w.pool.size w.pool.capacity w.pool.queues w.accepted
                  w.handled v.ordered r (ground (arith, room));
            no_queue = λ d i. absurd (ground (arith, v.no_start d, on));
            no_start = v.no_start;
            no_sender = v.no_sender;
          })
    Step-IsSound _ (sends_waits r p h) =
        let (e, on) = send_msg-waits w.pool p r h in
        subst (λ q. IsSound (record w { pool = q })) (sym e)
          (record {
            ordered = v.ordered;
            no_queue = v.no_queue;
            no_start = v.no_start;
            no_sender = λ d. absurd (ground (arith, v.no_start d, on));
          })
    Step-IsSound _ (gets_room r before after h room) =
        let on : w.pool.start_done ≢ false =
          λ d. not_empty w.pool before after r h (v.no_sender d) in
        unfold send_waiting in
        record {
          ordered =
              put_behind get_conn_id w.pool.size w.pool.capacity w.pool.queues w.accepted w.handled
                v.ordered r (ground (arith, room));
          no_queue = λ d. absurd (on d);
          no_start = v.no_start;
          no_sender = λ d. absurd (on d);
        }
    Step-IsSound _ (gives_up r before after h) = record {
      ordered = v.ordered;
      no_queue = v.no_queue;
      no_start = v.no_start;
      no_sender = λ d. absurd (not_empty w.pool before after r h (v.no_sender d));
    }
    Step-IsSound _ (takes i r p b h) =
        let (rest, q, e) = take_task-some w.pool p i r h in
        subst (λ q. IsSound (record w { pool = q; handled = w.handled ++ r ∷ [] })) (sym e)
          (record {
            ordered =
                take_front get_conn_id w.pool.size w.pool.capacity w.pool.queues w.accepted
                  w.handled v.ordered i r rest q;
            no_queue = λ d j. absurd (ground (arith, v.no_queue d i, q));
            no_start = v.no_start;
            no_sender = v.no_sender;
          })
    Step-IsSound _ (starts h) = start-IsSound
    Step-IsSound _ begins_stop = unfold begin_stop in v
    Step-IsSound _ (stops h) = stop-IsSound

  Reach-IsSound : (w w' : World R) → IsSound w → Reach get_conn_id w w' → IsSound w'
  Reach-IsSound w _ v here = v
  Reach-IsSound w w' v (next {v = u} r s) = Step-IsSound u (Reach-IsSound w u v r) w' s

  -- After any steps from a new pool, each queue is within the capacity and holds only requests whose
  -- connection's number, modulo the number of workers, is the worker's; and the requests of each
  -- connection that were accepted into a queue are those that a worker was given, in the same order,
  -- followed by those that still wait in its worker's queue.
  pub Reach-new_world :
      (size capacity wait_time : ℕ) (w : World R)
      → Reach get_conn_id (new_world size capacity wait_time) w
      → ((i : ℕ) → All (λ r. get_conn_id r % w.pool.size ≡ i) (w.pool.queues i))
        × ((i : ℕ) → length (w.pool.queues i) ≤ w.pool.capacity)
        × ((c : ℕ)
            → of_conn get_conn_id c w.accepted
              ≡ of_conn get_conn_id c w.handled
                ++ of_conn get_conn_id c (w.pool.queues (c % w.pool.size)))
  Reach-new_world size capacity wait_time w r =
      let v =
        Reach-IsSound (new_world size capacity wait_time) w
          (new_world-IsSound size capacity wait_time) r in
      (v.ordered.routed, v.ordered.bounded, v.ordered.in_order)
