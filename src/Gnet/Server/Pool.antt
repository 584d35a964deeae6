-- ===== src/Gnet/Server/Pool.antt =====
-- The worker pool of a server: told to stop with the server, and empty once the shutdown is done.
use ginx.Prelude.{
  ℕ, ◌≡◌, refl, Bool, true, false, Option, some, List, [], ◌∷◌, arith, if◌then◌else◌, nat_eq,
  string_eq, Bool-cases, Option-cases, inl, inr, int_eq, Result-cases,
}
use ginx.GoMap.{get}
use ginx.Gnet.Config.{Config}
use ginx.Gnet.ConnManager.{add}
use ginx.Gnet.Server.{
  Server, Task, TaskPhase, starting, running, stopping, leaving, AcceptPhase, idle, waiting, exited,
  holding, ShutdownPhase, not_called, called, closed, cleared, drained, queues_closed, done,
  new_server, start_with_error, accept_conn, accept_error, register, task_step, route, router_ends,
  worker_ends, shutdown_call, shutdown_step, all_over, pool_over, Event, starts, accepts,
  accept_fails, registers, conn_stops, task_steps, routes, router_returns, worker_returns,
  shuts_down, shutdown_steps, step, run,
}
use ginx.Gnet.Server.Invariant.{begun}

pub record IsPool (s : Server) : Type 0 where
  pub stopped : begun s.shutdown ≡ true → s.stopped ≡ true
  pub told : begun s.shutdown ≡ true → s.pool_stopping ≡ true
  pub empty : s.shutdown ≡ done → pool_over s ≡ true

-- What does not touch the pool or the shutdown.
abbrev pub Aside : Server → Server → Type 0
Aside s s' =
    (s.stopped ≡ true → s'.stopped ≡ true)
    × (s'.pool_stopping ≡ s.pool_stopping)
    × (s'.workers ≡ s.workers)
    × (s'.routers ≡ s.routers)
    × (s'.shutdown ≡ s.shutdown)

Aside-IsPool : (s s' : Server) → Aside s s' → IsPool s → IsPool s'
Aside-IsPool s s' (flag, told, workers, routers, same) p = record {
  stopped = λ h. flag (p.stopped (ground (arith, h, same)));
  told = λ h. ground (arith, told, p.told (ground (arith, h, same)));
  empty = λ h. ground (arith, workers, routers, p.empty (ground (arith, h, same)));
}

Aside-refl : (s : Server) → Aside s s
Aside-refl s = ((λ h. h), refl, refl, refl, refl)

Aside-if : (test : Bool) (s x y : Server) → Aside s x → Aside s y → Aside s (if test then x else y)
Aside-if true s x y hx hy = hx
Aside-if false s x y hx hy = hy

module _ (global : Config) (s : Server) where
  pub accept_conn-Aside : Aside s (accept_conn s)
  unfolding accept_conn
  accept_conn-Aside = go s.accept refl
    where
      go : (a : AcceptPhase) → s.accept ≡ a → Aside s (accept_conn s)
      go idle e = rw (e, accept_conn) (Aside-refl s)
      go exited e = rw (e, accept_conn) (Aside-refl s)
      go (holding id) e = rw (e, accept_conn) (Aside-refl s)
      go waiting e = rw (e, accept_conn) (Aside-if s.stopped s _ _ (Aside-refl s) (Aside-refl s))

  pub accept_error-Aside : Aside s (accept_error s)
  unfolding accept_error
  accept_error-Aside = go s.accept refl
    where
      go : (a : AcceptPhase) → s.accept ≡ a → Aside s (accept_error s)
      go idle e = rw (e, accept_error) (Aside-refl s)
      go exited e = rw (e, accept_error) (Aside-refl s)
      go (holding id) e = rw (e, accept_error) (Aside-refl s)
      go waiting e = rw (e, accept_error) (Aside-if s.stopped s _ s (Aside-refl s) (Aside-refl s))

  pub register-Aside : Aside s (register global s)
  unfolding register
  register-Aside = go s.accept refl
    where
      go : (a : AcceptPhase) → s.accept ≡ a → Aside s (register global s)
      go idle e = rw (e, register) (Aside-refl s)
      go exited e = rw (e, register) (Aside-refl s)
      go waiting e = rw (e, register) (Aside-refl s)
      go (holding id) e = elim (Result-cases (add (λ (c : ℕ). c) global s.conn_mgr (some id))) [
        | inl (cm, f) ↦ rw (e, f, register) (Aside-if s.stopped s _ _ (Aside-refl s) (Aside-refl s))
        | inr (x, f) ↦ rw (e, f, register) (Aside-if s.stopped s _ _ (Aside-refl s) (Aside-refl s))
      ]

  pub task_step-Aside : (id : ℕ) → Aside s (task_step id s)
  unfolding task_step
  task_step-Aside id = elim (Option-cases (get id s.tasks)) [
    | inl n ↦ rw (n, task_step) (Aside-refl s)
    | inr (task, e) ↦ go task e task.phase refl
  ]
    where
      go :
          (task : Task)
          → get id s.tasks ≡ some task
          → (p : TaskPhase) → task.phase ≡ p
          → Aside s (task_step id s)
      go task e starting f = rw (e, f, task_step) (Aside-refl s)
      go task e running f = rw (e, f, task_step) (Aside-refl s)
      go task e stopping f = rw (e, f, task_step) (Aside-refl s)
      go task e leaving f = rw (e, f, task_step) (Aside-refl s)

  module _ (p : IsPool s) where
    -- A server that is to stop starts no pool.
    start-IsPool : (listens : Bool) → IsPool (start_with_error listens s).1
    unfolding start_with_error
    start-IsPool listens = elim (Bool-cases s.start_once) [
      | inl o ↦ record {
        stopped = λ h. ground (arith, o, h, p.stopped);
        told = λ h. ground (arith, o, h, p.told);
        empty = λ h. ground (arith, o, h, p.empty);
      }
      | inr o ↦ elim (Bool-cases s.stopped) [
        | inl t ↦ record {
          stopped = λ h. ground (arith, o, t);
          told = λ h. ground (arith, o, t, h, p.told);
          empty = λ h. ground (arith, o, t, h, p.empty);
        }
        | inr t ↦
            let never : begun s.shutdown ≡ false =
              ground (arith, t, p.stopped, Bool-cases (begun s.shutdown)) in
            record {
              stopped = λ h. ground (arith, o, t, h, never);
              told = λ h. ground (arith, o, t, h, never);
              empty = λ h. ground (arith, o, t, h, never);
            }
      ]
    ]

    -- Once the pool is told to stop, nothing is given a goroutine of its own.
    route-IsPool : (id : ℕ) → IsPool (route id s)
    unfolding route
    route-IsPool id = elim (Option-cases (get id s.tasks)) [
      | inl n ↦ rw (n, route) p
      | inr (task, e) ↦ elim (Bool-cases s.pool_stopping) [
        | inl t ↦ record {
          stopped = λ h. ground (arith, e, t, h, p.stopped);
          told = λ h. ground (arith, e, t, h);
          empty = λ h. ground (arith, e, t, h, p.empty);
        }
        | inr t ↦
            let never : begun s.shutdown ≡ false =
              ground (arith, t, p.told, Bool-cases (begun s.shutdown)) in
            record {
              stopped = λ h. ground (arith, e, t, h, never);
              told = λ h. ground (arith, e, t, h, never);
              empty = λ h. ground (arith, e, t, h, never);
            }
      ]
    ]

    router_ends-IsPool : IsPool (router_ends s)
    unfolding router_ends
    router_ends-IsPool = record {
      stopped = p.stopped;
      told = p.told;
      empty = λ h. ground (arith, p.empty h);
    }

    worker_ends-IsPool : IsPool (worker_ends s)
    unfolding worker_ends
    worker_ends-IsPool = go s.shutdown refl
      where
        go : (q : ShutdownPhase) → s.shutdown ≡ q → IsPool (worker_ends s)
        go not_called e = rw (e, worker_ends) p
        go called e = rw (e, worker_ends) p
        go closed e = rw (e, worker_ends) p
        go cleared e = rw (e, worker_ends) p
        go drained e = rw (e, worker_ends) p
        go done e = rw (e, worker_ends) p
        go queues_closed e =
            rw (e, worker_ends)
              (record { stopped = p.stopped; told = p.told; empty = λ h. ground (arith, h, e) })

    shutdown_call-IsPool : IsPool (shutdown_call s)
    unfolding shutdown_call
    shutdown_call-IsPool = go s.shutdown refl
      where
        go : (q : ShutdownPhase) → s.shutdown ≡ q → IsPool (shutdown_call s)
        go not_called e =
            rw (e, shutdown_call)
              (record { stopped = λ h. refl; told = λ h. refl; empty = λ h. ground (arith, h) })
        go called e = rw (e, shutdown_call) p
        go closed e = rw (e, shutdown_call) p
        go cleared e = rw (e, shutdown_call) p
        go drained e = rw (e, shutdown_call) p
        go queues_closed e = rw (e, shutdown_call) p
        go done e = rw (e, shutdown_call) p

    -- The shutdown is done only once the pool is over.
    shutdown_step-IsPool : IsPool (shutdown_step s)
    unfolding shutdown_step
    shutdown_step-IsPool = go s.shutdown refl
      where
        on : begun s.shutdown ≡ true → (s.stopped ≡ true) × (s.pool_stopping ≡ true)
        on h = (p.stopped h, p.told h)

        go : (q : ShutdownPhase) → s.shutdown ≡ q → IsPool (shutdown_step s)
        go not_called e = rw (e, shutdown_step) p
        go done e = rw (e, shutdown_step) p
        go called e = record {
          stopped = λ h. ground (arith, e, on);
          told = λ h. ground (arith, e, on);
          empty = λ h. ground (arith, e, h);
        }
        go closed e = record {
          stopped = λ h. ground (arith, e, on);
          told = λ h. ground (arith, e, on);
          empty = λ h. ground (arith, e, h);
        }
        go cleared e = record {
          stopped = λ h. ground (arith, e, on, Bool-cases (all_over s));
          told = λ h. ground (arith, e, on, Bool-cases (all_over s));
          empty = λ h. ground (arith, e, h, Bool-cases (all_over s));
        }
        go drained e = record {
          stopped = λ h. ground (arith, e, on);
          told = λ h. ground (arith, e, on);
          empty = λ h. ground (arith, e, h);
        }
        go queues_closed e = record {
          stopped = λ h. ground (arith, e, on, Bool-cases (pool_over s));
          told = λ h. ground (arith, e, on, Bool-cases (pool_over s));
          empty = λ h. ground (arith, e, h, Bool-cases (pool_over s));
        }

module _ (global : Config) where
  pub step-IsPool : (s : Server) (e : Event) → IsPool s → IsPool (step global s e)
  unfolding step
  step-IsPool s (starts listens) p = start-IsPool global s p listens
  step-IsPool s accepts p = Aside-IsPool s _ (accept_conn-Aside global s) p
  step-IsPool s accept_fails p = Aside-IsPool s _ (accept_error-Aside global s) p
  step-IsPool s registers p = Aside-IsPool s _ (register-Aside global s) p
  step-IsPool s (conn_stops id) p = Aside-IsPool s _ (Aside-refl s) p
  step-IsPool s (task_steps id) p = Aside-IsPool s _ (task_step-Aside global s id) p
  step-IsPool s (routes id) p = route-IsPool global s p id
  step-IsPool s router_returns p = router_ends-IsPool global s p
  step-IsPool s worker_returns p = worker_ends-IsPool global s p
  step-IsPool s shuts_down p = shutdown_call-IsPool global s p
  step-IsPool s shutdown_steps p = shutdown_step-IsPool global s p

  pub run-IsPool : (s : Server) (es : List Event) → IsPool s → IsPool (run global s es)
  unfolding run
  run-IsPool s [] p = p
  run-IsPool s (e ∷ es) p = run-IsPool (step global s e) es (step-IsPool s e p)

  pub new_server-IsPool : (config : Option Config) → IsPool (new_server global config)
  unfolding new_server
  new_server-IsPool config = record {
    stopped = λ h. ground (arith, h);
    told = λ h. ground (arith, h);
    empty = λ h. ground (arith, h);
  }
