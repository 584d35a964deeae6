-- ===== src/Gnet/Server/Shutdown.antt =====
-- Shutdown, from its call to its return: every step keeps the invariant of the server.
use ginx.Prelude.{ℕ, ◌≡◌, refl, true, arith, nat_eq, string_eq, Option-cases, int_eq}
use ginx.GoMap.{get}
use ginx.GoMap.Laws.{get_empty}
use ginx.Gnet.Config.{Config}
use ginx.Gnet.ConnManager.{clear_conn}
use ginx.Gnet.ConnManager.Registry.{clear_conn-IsWf}
use ginx.Gnet.ConnManager.Effects.{clear_conn-connections}
use ginx.Gnet.Server.{
  Server, ShutdownPhase, not_called, called, closed, cleared, drained, queues_closed, done,
  pool_over, stop_task, shutdown_call, shutdown_step, all_over,
}
use ginx.Gnet.Server.Stopping.{get-clear_conn, size-clear_conn, clear_conn-IsUnique}
use ginx.Gnet.Server.Invariant.{IsServer, if-IsServer}

module _ (global : Config) (s : Server) (v : IsServer global s) where
  pub shutdown_call-IsServer : IsServer global (shutdown_call s)
  unfolding shutdown_call
  shutdown_call-IsServer = go s.shutdown refl
    where
      go : (p : ShutdownPhase) → s.shutdown ≡ p → IsServer global (shutdown_call s)
      go not_called e =
          rw (e, shutdown_call)
            (record {
              unique = v.unique;
              wf = v.wf;
              flagged = λ h. refl;
              registered = λ h. v.registered (ground (arith, e));
              unregistered = λ h k. ground (arith, h);
              ending = λ h k. ground (arith, h);
              over = λ h. ground (arith, h);
              gauge = v.gauge;
            })
      go called e = rw (e, shutdown_call) v
      go closed e = rw (e, shutdown_call) v
      go cleared e = rw (e, shutdown_call) v
      go drained e = rw (e, shutdown_call) v
      go queues_closed e = rw (e, shutdown_call) v
      go done e = rw (e, shutdown_call) v

  -- Clearing stops every task, since every task is registered until then.
  clears-IsServer :
      s.shutdown ≡ closed
      → IsServer global (record s {
        conn_mgr = (clear_conn stop_task s.conn_mgr s.tasks).0;
        tasks = (clear_conn stop_task s.conn_mgr s.tasks).1;
        shutdown = cleared;
      })
  clears-IsServer e =
      let none_left = clear_conn-connections s.conn_mgr stop_task s.tasks in
      let same_size = size-clear_conn global s.conn_mgr v.wf s.tasks in
      record {
        unique = clear_conn-IsUnique global s.conn_mgr v.wf s.tasks v.unique;
        wf = clear_conn-IsWf (λ (c : ℕ). c) global stop_task s.conn_mgr s.tasks;
        flagged = λ h. v.flagged (ground (arith, e));
        registered = λ h k. ground (arith, h);
        unregistered = λ h k.
            ground (
              arith,
              get_empty k (clear_conn stop_task s.conn_mgr s.tasks).0.connections none_left,
            );
        ending = λ h k. ground (
          arith,
          e,
          get-clear_conn global s.conn_mgr v.wf s.tasks k,
          v.registered (ground (arith, e)) k,
          Option-cases (get k s.tasks),
        );
        over = λ h. ground (arith, h);
        gauge = ground (arith, v.gauge, same_size);
      }

  pub shutdown_step-IsServer : IsServer global (shutdown_step s)
  unfolding shutdown_step
  shutdown_step-IsServer = go s.shutdown refl
    where
      go : (p : ShutdownPhase) → s.shutdown ≡ p → IsServer global (shutdown_step s)
      go not_called e = rw (e, shutdown_step) v
      go done e = rw (e, shutdown_step) v
      go closed e = rw (e, shutdown_step) (clears-IsServer e)
      go called e =
          rw (e, shutdown_step)
            (record {
              unique = v.unique;
              wf = v.wf;
              flagged = λ h. v.flagged (ground (arith, e));
              registered = λ h. v.registered (ground (arith, e));
              unregistered = λ h k. ground (arith, h);
              ending = λ h k. ground (arith, h);
              over = λ h. ground (arith, h);
              gauge = v.gauge;
            })
      go cleared e =
          rw (e, shutdown_step) (if-IsServer global s v (all_over s) _ s (λ o. waits e o) (λ o. v))
        where
          waits :
              s.shutdown ≡ cleared
              → all_over s ≡ true
              → IsServer global (record s { shutdown = drained })
          waits e o = record {
            unique = v.unique;
            wf = v.wf;
            flagged = λ h. v.flagged (ground (arith, e));
            registered = λ h k. ground (arith, h);
            unregistered = λ h. v.unregistered (ground (arith, e));
            ending = λ h. v.ending (ground (arith, e));
            over = λ h. o;
            gauge = v.gauge;
          }
      go queues_closed e =
          rw (e, shutdown_step) (if-IsServer global s v (pool_over s) _ s (λ o. ends e) (λ o. v))
        where
          ends : s.shutdown ≡ queues_closed → IsServer global (record s { shutdown = done })
          ends e = record {
            unique = v.unique;
            wf = v.wf;
            flagged = λ h. v.flagged (ground (arith, e));
            registered = λ h k. ground (arith, h);
            unregistered = λ h. v.unregistered (ground (arith, e));
            ending = λ h. v.ending (ground (arith, e));
            over = λ h. v.over (ground (arith, e));
            gauge = v.gauge;
          }
      go drained e =
          rw (e, shutdown_step)
            (record {
              unique = v.unique;
              wf = v.wf;
              flagged = λ h. v.flagged (ground (arith, e));
              registered = λ h k. ground (arith, h);
              unregistered = λ h. v.unregistered (ground (arith, e));
              ending = λ h. v.ending (ground (arith, e));
              over = λ h. v.over (ground (arith, e));
              gauge = v.gauge;
            })
