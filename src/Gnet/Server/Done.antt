-- ===== src/Gnet/Server/Done.antt =====
-- Every event keeps the invariant, so that a shutdown that is done left nothing behind.
use ginx.Prelude.{
  ◌&&◌, not, ℕ, ◌%◌, ◌^◌, ◌≡◌, refl, sym, subst, ◌⊎◌, inl, inr, true, false, Option, some, List, [],
  ◌∷◌, arith, nat_eq, string_eq, Bool-cases, Option-cases, int_eq,
}
use ginx.GoMap.{get, has, size}
use ginx.Gnet.Config.{Config}
use ginx.GoMap.Laws.{size_zero}
use ginx.Gnet.Server.{
  route, worker_ends, routes, router_returns, worker_returns, reads, ShutdownPhase, not_called,
  called, closed, cleared, drained, queues_closed, Server, Task, AcceptPhase, idle, waiting, exited,
  holding, TaskPhase, starting, running, stopping, leaving, done, new_server, next_phase, task_step,
  all_over, Event, step, run, starts, accepts, accept_fails, registers, conn_stops, task_steps,
  shuts_down, shutdown_steps,
}
use ginx.Gnet.Server.Invariant.{
  IsServer, after_clear, new_server-IsServer, update-IsServer, if-IsServer,
}
use ginx.Gnet.Server.Accepting.{
  start_with_error-IsServer, accept_conn-IsServer, accept_error-IsServer, register-IsServer,
}
use ginx.Gnet.Server.Shutdown.{shutdown_call-IsServer, shutdown_step-IsServer}
use ginx.Gnet.Server.Pool.{IsPool, run-IsPool, new_server-IsPool}
use ginx.Gnet.Server.Tasks.{conn_stops-IsServer, go_on-IsServer, finish-IsServer}

-- Going on does not touch the stop flag of a task.
next_phase-stopped : (task : Task) → (next_phase task).stopped ≡ task.stopped
next_phase-stopped task = go task.phase refl
  where
    go : (p : TaskPhase) → task.phase ≡ p → (next_phase task).stopped ≡ task.stopped
    go starting e = rw e refl
    go running e = ground (arith, e, Bool-cases task.stopped)
    go stopping e = rw e refl
    go leaving e = rw e refl

module _ (global : Config) (s : Server) (v : IsServer global s) where
  task_step-IsServer : (id : ℕ) → IsServer global (task_step id s)
  unfolding task_step
  task_step-IsServer id = elim (Option-cases (get id s.tasks)) [
    | inl n ↦ rw (n, task_step) v
    | inr (task, e) ↦ go task e task.phase refl
  ]
    where
      go :
          (task : Task)
          → get id s.tasks ≡ some task
          → (p : TaskPhase) → task.phase ≡ p
          → IsServer global (task_step id s)
      go task e leaving f = rw (e, f, task_step) (finish-IsServer global s v id task e)
      go task e starting f =
          rw (e, f, task_step)
            (go_on-IsServer global s v id task (next_phase task) e (next_phase-stopped task))
      go task e stopping f =
          rw (e, f, task_step)
            (go_on-IsServer global s v id task (next_phase task) e (next_phase-stopped task))
      go task e running f =
          rw (e, f, task_step)
            (go_on-IsServer global s v id task (next_phase task) e (next_phase-stopped task))

  -- The pool is not what the invariant speaks of.
  route-IsServer : (id : ℕ) → IsServer global (route id s)
  unfolding route
  route-IsServer id = elim (Option-cases (get id s.tasks)) [
    | inl n ↦ rw (n, route) v
    | inr (task, e) ↦
        rw (e, route)
          (if-IsServer global s v (reads task.phase && not s.pool_stopping && not s.pool_started) _
            s (λ b. update-IsServer global s v _ refl refl refl refl (λ h. h) v.over) (λ b. v))
  ]

  worker_ends-IsServer : IsServer global (worker_ends s)
  unfolding worker_ends
  worker_ends-IsServer = go s.shutdown refl
    where
      go : (p : ShutdownPhase) → s.shutdown ≡ p → IsServer global (worker_ends s)
      go not_called e = rw (e, worker_ends) v
      go called e = rw (e, worker_ends) v
      go closed e = rw (e, worker_ends) v
      go cleared e = rw (e, worker_ends) v
      go drained e = rw (e, worker_ends) v
      go done e = rw (e, worker_ends) v
      go queues_closed e =
          rw (e, worker_ends) (update-IsServer global s v _ refl refl refl refl (λ h. h) v.over)

module _ (global : Config) where
  pub step-IsServer :
      (s : Server) (e : Event) → IsServer global s → IsServer global (step global s e)
  unfolding step
  step-IsServer s (starts listens) v = start_with_error-IsServer global s v listens
  step-IsServer s accepts v = accept_conn-IsServer global s v
  step-IsServer s accept_fails v = accept_error-IsServer global s v
  step-IsServer s registers v = register-IsServer global s v
  step-IsServer s (conn_stops id) v = conn_stops-IsServer global s v id
  step-IsServer s (task_steps id) v = task_step-IsServer global s v id
  step-IsServer s (routes id) v = route-IsServer global s v id
  step-IsServer s router_returns v =
      update-IsServer global s v _ refl refl refl refl (λ h. h) v.over
  step-IsServer s worker_returns v = worker_ends-IsServer global s v
  step-IsServer s shuts_down v = shutdown_call-IsServer global s v
  step-IsServer s shutdown_steps v = shutdown_step-IsServer global s v

  pub run-IsServer :
      (s : Server) (es : List Event) → IsServer global s → IsServer global (run global s es)
  unfolding run
  run-IsServer s [] v = v
  run-IsServer s (e ∷ es) v = run-IsServer (step global s e) es (step-IsServer s e v)

  -- After any events on a new server, in any order: the gauge of the connections is the number of their
  -- tasks, and as long as the connections were not cleared exactly the registered ones have a task.
  pub run-new_server-gauge :
      (config : Option Config) (es : List Event)
      → (s : Server) → s ≡ run global (new_server global config) es
      → (s.metrics.connections ≡ size s.tasks % 2 ^ 64)
        × (after_clear s.shutdown ≡ false → (k : ℕ) → has k s.conn_mgr.connections ≡ has k s.tasks)
  run-new_server-gauge config es s e =
      let v =
        subst (IsServer global) (sym e)
          (run-IsServer (new_server global config) es (new_server-IsServer global config)) in
      (v.gauge, v.registered)

  -- Once the shutdown of a server is done, whatever the events before and in whatever order: the server
  -- is stopped, no connection has a task left or is registered, the accept loop is over or never began,
  -- every worker and every router has returned, and the gauge of the connections is zero.
  pub run-new_server-done :
      (config : Option Config) (es : List Event) (s : Server)
      → s ≡ run global (new_server global config) es
      → s.shutdown ≡ done
      → (s.stopped ≡ true)
        × (s.tasks ≡ [])
        × ((k : ℕ) → has k s.conn_mgr.connections ≡ false)
        × ((s.accept ≡ idle) ⊎ (s.accept ≡ exited))
        × (s.workers ≡ 0)
        × (s.routers ≡ 0)
        × (s.metrics.connections ≡ 0)
  run-new_server-done config es s e d =
      let v =
        subst (IsServer global) (sym e)
          (run-IsServer (new_server global config) es (new_server-IsServer global config)) in
      let empty =
        (subst IsPool (sym e) (
            run-IsPool global (new_server global config) es
              (new_server-IsPool global config))).empty
          d in
      let over = v.over (ground (arith, d)) in
      let none_left : size s.tasks ≡ 0 = ground (arith, over) in
      (
        v.flagged (ground (arith, d)),
        size_zero s.tasks none_left,
        v.unregistered (ground (arith, d)),
        accept_over s.accept refl over,
        ground (arith, empty),
        ground (arith, empty),
        ground (arith, none_left, v.gauge),
      )
    where
      accept_over :
          (a : AcceptPhase)
          → s.accept ≡ a
          → all_over s ≡ true
          → (s.accept ≡ idle) ⊎ (s.accept ≡ exited)
      accept_over idle f o = inl f
      accept_over exited f o = inr f
      accept_over waiting f o = absurd (ground (arith, f, o))
      accept_over (holding id) f o = absurd (ground (arith, f, o))
