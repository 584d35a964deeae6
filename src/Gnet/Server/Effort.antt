-- ===== src/Gnet/Server/Effort.antt =====
-- What the goroutines of a server have left to do once Shutdown was called: every step of theirs that
-- changes anything makes it less, and nothing else makes it more.
use ginx.Prelude.{
  ℕ, ◌+◌, ◌-◌, ◌≤◌, ◌<◌, ◌≡◌, ◌⊎◌, ◌∙◌, refl, ap, subst, sym, inl, inr, Bool, true, false, some,
  arith, ◌==◌, nat_eq, string_eq, Bool-cases, Option-cases, int_eq,
}
use ginx.GoMap.{get, put}
use ginx.Gnet.Config.{Config}
use ginx.Gnet.Server.{
  Server, Task, TaskPhase, starting, running, stopping, leaving, AcceptPhase, idle, waiting, exited,
  holding, ShutdownPhase, not_called, called, closed, cleared, drained, queues_closed, done,
  start_with_error, accept_conn, accept_error, register, task_step, next_phase, route, router_ends,
  worker_ends, shutdown_call, shutdown_step, all_over, pool_over, Event, starts, accepts,
  accept_fails, registers, conn_stops, task_steps, routes, router_returns, worker_returns,
  shuts_down, shutdown_steps, step,
}
use ginx.Gnet.Server.Invariant.{begun}
use ginx.Gnet.Server.Pool.{IsPool}
use ginx.Gnet.Server.Draining.{
  tasks_left, tasks_left-put, tasks_left-delete, tasks_left-stop_task, tasks_left-clear_conn,
  put_same,
}

-- The steps of the goroutines, as against what others ask for: a start, a stop of a connection, a
-- request, a call of Shutdown.
abbrev pub is_own : Event → Bool
is_own (starts listens) = false
is_own (conn_stops id) = false
is_own (routes id) = false
is_own shuts_down = false
is_own _ = true

abbrev pub accept_left : AcceptPhase → ℕ
accept_left idle = 0
accept_left exited = 0
accept_left waiting = 1
accept_left (holding id) = 1

abbrev pub shutdown_left : ShutdownPhase → ℕ
shutdown_left not_called = 6
shutdown_left called = 5
shutdown_left closed = 4
shutdown_left cleared = 3
shutdown_left drained = 2
shutdown_left queues_closed = 1
shutdown_left done = 0

-- The steps that are left: of the tasks of the connections, of the accept loop, of the shutdown, and
-- one for each worker and each router.
abbrev pub effort : Server → ℕ
effort s =
    tasks_left s.tasks
    + (accept_left s.accept + (shutdown_left s.shutdown + (s.workers + s.routers)))

-- A step that finds nothing to do, or makes what is left less.
abbrev pub Lowers : Server → Server → Type 0
Lowers s s' = (s' ≡ s) ⊎ (effort s' < effort s)

module _ (global : Config) (s : Server) (p : IsPool s) (b : begun s.shutdown ≡ true) where
  accept_conn-Lowers : Lowers s (accept_conn s)
  unfolding accept_conn
  accept_conn-Lowers = go s.accept refl
    where
      go : (a : AcceptPhase) → s.accept ≡ a → Lowers s (accept_conn s)
      go idle e = inl (simp (e, accept_conn) refl)
      go exited e = inl (simp (e, accept_conn) refl)
      go (holding id) e = inl (simp (e, accept_conn) refl)
      go waiting e = inr (ground (arith, e, p.stopped b))

  accept_error-Lowers : Lowers s (accept_error s)
  unfolding accept_error
  accept_error-Lowers = go s.accept refl
    where
      go : (a : AcceptPhase) → s.accept ≡ a → Lowers s (accept_error s)
      go idle e = inl (simp (e, accept_error) refl)
      go exited e = inl (simp (e, accept_error) refl)
      go (holding id) e = inl (simp (e, accept_error) refl)
      go waiting e = inr (ground (arith, e, p.stopped b))

  register-Lowers : Lowers s (register global s)
  unfolding register
  register-Lowers = go s.accept refl
    where
      go : (a : AcceptPhase) → s.accept ≡ a → Lowers s (register global s)
      go idle e = inl (simp (e, register) refl)
      go exited e = inl (simp (e, register) refl)
      go waiting e = inl (simp (e, register) refl)
      go (holding id) e = inr (ground (arith, e, p.stopped b))

  task_step-Lowers : (id : ℕ) → Lowers s (task_step id s)
  unfolding task_step
  task_step-Lowers id = elim (Option-cases (get id s.tasks)) [
    | inl n ↦ inl (simp (n, task_step) refl)
    | inr (task, e) ↦ go task e task.phase refl
  ]
    where
      go :
          (task : Task)
          → get id s.tasks ≡ some task
          → (q : TaskPhase) → task.phase ≡ q
          → Lowers s (task_step id s)
      go task e starting f =
          inr (ground (arith, e, f, tasks_left-put id task (next_phase task) s.tasks e))
      go task e stopping f =
          inr (ground (arith, e, f, tasks_left-put id task (next_phase task) s.tasks e))
      go task e leaving f = inr (ground (arith, e, f, tasks_left-delete id task s.tasks e))
      go task e running f = elim (Bool-cases task.stopped) [
        | inl t ↦ inr (ground (arith, e, f, t, tasks_left-put id task (next_phase task) s.tasks e))
        | inr t ↦
            let stays : next_phase task ≡ task = ground (arith, f, t) in
            inl (
              simp (e, f, task_step)
                (ap (λ u. record s { tasks = put id u s.tasks }) stays
                  ∙ ap (λ tasks. record s { tasks = tasks }) (put_same id task s.tasks e)))
      ]

  router_ends-Lowers : Lowers s (router_ends s)
  unfolding router_ends
  router_ends-Lowers = elim (Bool-cases (s.routers == 0)) [
    | inl z ↦ inl (ap (λ n. record s { routers = n }) (ground (arith, z)))
    | inr z ↦ inr (ground (arith, z))
  ]

  worker_ends-Lowers : Lowers s (worker_ends s)
  unfolding worker_ends
  worker_ends-Lowers = go s.shutdown refl
    where
      go : (q : ShutdownPhase) → s.shutdown ≡ q → Lowers s (worker_ends s)
      go not_called e = inl (simp (e, worker_ends) refl)
      go called e = inl (simp (e, worker_ends) refl)
      go closed e = inl (simp (e, worker_ends) refl)
      go cleared e = inl (simp (e, worker_ends) refl)
      go drained e = inl (simp (e, worker_ends) refl)
      go done e = inl (simp (e, worker_ends) refl)
      go queues_closed e = elim (Bool-cases (s.workers == 0)) [
        | inl z ↦
            let none_left : s.workers - 1 ≡ s.workers = ground (arith, z) in
            inl (
              simp (e, worker_ends)
                (ap (λ q. record s { workers = s.workers - 1; shutdown = q }) (sym e)
                  ∙ ap (λ n. record s { workers = n }) none_left))
        | inr z ↦ inr (ground (arith, e, z))
      ]

  shutdown_step-Lowers : Lowers s (shutdown_step s)
  unfolding shutdown_step
  shutdown_step-Lowers = go s.shutdown refl
    where
      go : (q : ShutdownPhase) → s.shutdown ≡ q → Lowers s (shutdown_step s)
      go not_called e = inl (simp (e, shutdown_step) refl)
      go done e = inl (simp (e, shutdown_step) refl)
      go called e = inr (ground (arith, e))
      go closed e = inr (ground (arith, e, tasks_left-clear_conn s.conn_mgr s.tasks))
      go drained e = inr (ground (arith, e))
      go cleared e = elim (Bool-cases (all_over s)) [
        | inl o ↦ inr (ground (arith, e, o))
        | inr o ↦ inl (simp (e, o, shutdown_step) refl)
      ]
      go queues_closed e = elim (Bool-cases (pool_over s)) [
        | inl o ↦ inr (ground (arith, e, o))
        | inr o ↦ inl (simp (e, o, shutdown_step) refl)
      ]

  -- A step of a goroutine.
  pub own-Lowers : (e : Event) → is_own e ≡ true → Lowers s (step global s e)
  unfolding step
  own-Lowers accepts h = accept_conn-Lowers
  own-Lowers accept_fails h = accept_error-Lowers
  own-Lowers registers h = register-Lowers
  own-Lowers (task_steps id) h = task_step-Lowers id
  own-Lowers router_returns h = router_ends-Lowers
  own-Lowers worker_returns h = worker_ends-Lowers
  own-Lowers shutdown_steps h = shutdown_step-Lowers
  own-Lowers (starts listens) h = absurd (ground (arith, h))
  own-Lowers (conn_stops id) h = absurd (ground (arith, h))
  own-Lowers (routes id) h = absurd (ground (arith, h))
  own-Lowers shuts_down h = absurd (ground (arith, h))

  start-effort : (listens : Bool) → effort (start_with_error listens s).1 ≤ effort s
  unfolding start_with_error
  start-effort listens = ground (arith, p.stopped b, Bool-cases s.start_once)

  route-effort : (id : ℕ) → effort (route id s) ≤ effort s
  unfolding route
  route-effort id = elim (Option-cases (get id s.tasks)) [
    | inl n ↦ ground (arith, n)
    | inr (task, e) ↦ ground (arith, e, p.told b)
  ]

  shutdown_call-effort : effort (shutdown_call s) ≤ effort s
  unfolding shutdown_call
  shutdown_call-effort = go s.shutdown refl
    where
      go : (q : ShutdownPhase) → s.shutdown ≡ q → effort (shutdown_call s) ≤ effort s
      go not_called e = absurd (ground (arith, e, b))
      go called e = ground (arith, e)
      go closed e = ground (arith, e)
      go cleared e = ground (arith, e)
      go drained e = ground (arith, e)
      go queues_closed e = ground (arith, e)
      go done e = ground (arith, e)

  Lowers-effort : (s' : Server) → Lowers s s' → effort s' ≤ effort s
  Lowers-effort s' (inl e) = subst (λ t. effort t ≤ effort s) (sym e) (omega arith)
  Lowers-effort s' (inr l) = omega (arith, l)

  -- No event makes what is left more.
  pub step-effort : (e : Event) → effort (step global s e) ≤ effort s
  unfolding step
  step-effort accepts = Lowers-effort _ accept_conn-Lowers
  step-effort accept_fails = Lowers-effort _ accept_error-Lowers
  step-effort registers = Lowers-effort _ register-Lowers
  step-effort (task_steps id) = Lowers-effort _ (task_step-Lowers id)
  step-effort router_returns = Lowers-effort _ router_ends-Lowers
  step-effort worker_returns = Lowers-effort _ worker_ends-Lowers
  step-effort shutdown_steps = Lowers-effort _ shutdown_step-Lowers
  step-effort (starts listens) = start-effort listens
  step-effort (conn_stops id) = omega (arith, tasks_left-stop_task id s.tasks)
  step-effort (routes id) = route-effort id
  step-effort shuts_down = shutdown_call-effort
