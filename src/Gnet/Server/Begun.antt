-- ===== src/Gnet/Server/Begun.antt =====
-- A shutdown that was called stays called.
use ginx.Prelude.{
  ℕ, ◌≡◌, refl, Bool, true, arith, nat_eq, string_eq, Bool-cases, Option-cases, inl, inr, int_eq,
}
use ginx.GoMap.{get}
use ginx.Gnet.Config.{Config}
use ginx.Gnet.Server.{
  Server, ShutdownPhase, not_called, called, closed, cleared, drained, queues_closed, done,
  start_with_error, accept_conn, accept_error, register, task_step, route, router_ends, worker_ends,
  shutdown_call, shutdown_step, all_over, pool_over, Event, starts, accepts, accept_fails,
  registers, conn_stops, task_steps, routes, router_returns, worker_returns, shuts_down,
  shutdown_steps, step,
}
use ginx.Gnet.Server.Invariant.{begun}
use ginx.Gnet.Server.Pool.{
  Aside, accept_conn-Aside, accept_error-Aside, register-Aside, task_step-Aside,
}

module _ (global : Config) (s : Server) (h : begun s.shutdown ≡ true) where
  Aside-begun : (s' : Server) → Aside s s' → begun s'.shutdown ≡ true
  Aside-begun s' (flag, told, workers, routers, same) = ground (arith, same, h)

  start-begun : (listens : Bool) → begun (start_with_error listens s).1.shutdown ≡ true
  unfolding start_with_error
  start-begun listens =
      ground (arith, h, Bool-cases s.start_once, Bool-cases s.stopped, Bool-cases listens)

  route-begun : (id : ℕ) → begun (route id s).shutdown ≡ true
  unfolding route
  route-begun id = elim (Option-cases (get id s.tasks)) [
    | inl n ↦ ground (arith, n, h)
    | inr (task, e) ↦ ground (arith, e, h)
  ]

  worker_ends-begun : begun (worker_ends s).shutdown ≡ true
  unfolding worker_ends
  worker_ends-begun = go s.shutdown refl
    where
      go : (q : ShutdownPhase) → s.shutdown ≡ q → begun (worker_ends s).shutdown ≡ true
      go not_called e = ground (arith, e, h)
      go called e = ground (arith, e, h)
      go closed e = ground (arith, e, h)
      go cleared e = ground (arith, e, h)
      go drained e = ground (arith, e, h)
      go queues_closed e = ground (arith, e, h)
      go done e = ground (arith, e, h)

  shutdown_call-begun : begun (shutdown_call s).shutdown ≡ true
  unfolding shutdown_call
  shutdown_call-begun = go s.shutdown refl
    where
      go : (q : ShutdownPhase) → s.shutdown ≡ q → begun (shutdown_call s).shutdown ≡ true
      go not_called e = ground (arith, e, h)
      go called e = ground (arith, e, h)
      go closed e = ground (arith, e, h)
      go cleared e = ground (arith, e, h)
      go drained e = ground (arith, e, h)
      go queues_closed e = ground (arith, e, h)
      go done e = ground (arith, e, h)

  shutdown_step-begun : begun (shutdown_step s).shutdown ≡ true
  unfolding shutdown_step
  shutdown_step-begun = go s.shutdown refl
    where
      go : (q : ShutdownPhase) → s.shutdown ≡ q → begun (shutdown_step s).shutdown ≡ true
      go not_called e = ground (arith, e, h)
      go called e = ground (arith, e, h)
      go closed e = ground (arith, e, h)
      go cleared e = ground (arith, e, h, Bool-cases (all_over s))
      go drained e = ground (arith, e, h)
      go queues_closed e = ground (arith, e, h, Bool-cases (pool_over s))
      go done e = ground (arith, e, h)

  -- A shutdown that was called stays called.
  pub step-begun : (e : Event) → begun (step global s e).shutdown ≡ true
  unfolding step
  step-begun (starts listens) = start-begun listens
  step-begun accepts = Aside-begun (accept_conn s) (accept_conn-Aside global s)
  step-begun accept_fails = Aside-begun (accept_error s) (accept_error-Aside global s)
  step-begun registers = Aside-begun (register global s) (register-Aside global s)
  step-begun (conn_stops id) = h
  step-begun (task_steps id) = Aside-begun (task_step id s) (task_step-Aside global s id)
  step-begun (routes id) = route-begun id
  step-begun router_returns = unfold router_ends in h
  step-begun worker_returns = worker_ends-begun
  step-begun shuts_down = shutdown_call-begun
  step-begun shutdown_steps = shutdown_step-begun
