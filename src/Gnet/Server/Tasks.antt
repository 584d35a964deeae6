-- ===== src/Gnet/Server/Tasks.antt =====
-- What happens to one connection keeps the invariant.
use ginx.Prelude.{ℕ, ◌≡◌, ap, some, arith, nat_eq, string_eq, Option-cases, int_eq}
use ginx.GoMap.{get, put, delete, size}
use ginx.GoMap.Laws.{get-put, get-delete, size-put, put-IsUnique, delete-IsUnique, size-delete}
use ginx.Gnet.Config.{Config}
use ginx.Gnet.ConnManager.Registry.{remove-IsWf}
use ginx.Gnet.ConnManager.Effects.{remove-connections}
use ginx.Metrics.Totals.{add_connections-less}
use ginx.Gnet.Server.{Server, Task, stop_task, finish}
use ginx.Gnet.Server.Stopping.{get-stop_task, size-stop_task, stop_task-IsUnique}
use ginx.Gnet.Server.Invariant.{IsServer}

module _ (global : Config) (s : Server) (v : IsServer global s) where
  pub conn_stops-IsServer : (id : ℕ) → IsServer global (record s { tasks = stop_task id s.tasks })
  conn_stops-IsServer id = record {
    unique = stop_task-IsUnique s.tasks id v.unique;
    wf = v.wf;
    flagged = v.flagged;
    registered = λ h k.
        ground (arith, v.registered h k, get-stop_task s.tasks id k, Option-cases (get k s.tasks));
    unregistered = v.unregistered;
    ending = λ h k.
        ground (arith, v.ending h k, get-stop_task s.tasks id k, Option-cases (get k s.tasks));
    over = λ h. ground (arith, v.over h, size-stop_task s.tasks id);
    gauge = ground (arith, v.gauge, size-stop_task s.tasks id);
  }

  -- A task that goes on keeps its place, and is stopped if it was.
  pub go_on-IsServer :
      (id : ℕ) (task task' : Task)
      → get id s.tasks ≡ some task
      → task'.stopped ≡ task.stopped
      → IsServer global (record s { tasks = put id task' s.tasks })
  go_on-IsServer id task task' e same = record {
    unique = put-IsUnique id task' s.tasks v.unique;
    wf = v.wf;
    flagged = v.flagged;
    registered = λ h k. ground (
      arith,
      e,
      v.registered h k,
      get-put k id task' s.tasks,
      (λ (t : id ≡ k). ap (λ (i : ℕ). get i s.tasks) t),
    );
    unregistered = v.unregistered;
    ending =
        λ h k. ground (arith, e, same, v.ending h id, v.ending h k, get-put k id task' s.tasks);
    over = λ h. ground (arith, e, v.over h, size-put id task' s.tasks);
    gauge = ground (arith, e, v.gauge, size-put id task' s.tasks);
  }

  pub finish-IsServer :
      (id : ℕ) (task : Task) → get id s.tasks ≡ some task → IsServer global (finish s id)
  finish-IsServer id task e =
      let removed = remove-connections s.conn_mgr id in
      record {
        unique = delete-IsUnique id s.tasks v.unique;
        wf = remove-IsWf (λ (c : ℕ). c) global s.conn_mgr id v.wf;
        flagged = v.flagged;
        registered = λ h k. ground (
          arith,
          removed,
          v.registered h k,
          get-delete k id s.tasks,
          get-delete k id s.conn_mgr.connections,
        );
        unregistered = λ h k.
            ground (arith, removed, v.unregistered h k, get-delete k id s.conn_mgr.connections);
        ending = λ h k. ground (arith, v.ending h k, get-delete k id s.tasks);
        over = λ h. ground (arith, e, v.over h, size-delete id s.tasks v.unique);
        gauge = ground (
          arith,
          e,
          v.gauge,
          size-delete id s.tasks v.unique,
          add_connections-less s.metrics (size (delete id s.tasks)),
        );
      }
