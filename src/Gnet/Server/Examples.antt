-- ===== src/Gnet/Server/Examples.antt =====
-- A server that takes two connections and is shut down, and the theorems on it.
use ginx.Prelude.{
  ℕ, ◌≡◌, refl, ◌⊎◌, true, false, none, List, [], ◌∷◌, ◌++◌, nat_eq, string_eq, int_eq,
}
use ginx.GoMap.{get, put, delete, has, size}
use ginx.Gnet.Config.{Config, default_config}
use ginx.Gnet.ConnManager.{new_conn_manager, add, remove, clear_conn, stop_all}
use ginx.Gnet.Server.{
  Server, new_server, Event, starts, accepts, accept_fails, registers, task_steps, shuts_down,
  shutdown_steps, worker_returns, worker_ends, step, run, idle, exited, done, start_with_error,
  accept_conn, accept_error, register, stop_task, task_step, shutdown_call, shutdown_step,
}
use ginx.Gnet.Server.Done.{run-new_server-done}

abbrev small : Config
small = record default_config { worker_pool_size = 2 }

abbrev opening : List Event
opening = starts true ∷ accepts ∷ registers ∷ accepts ∷ registers ∷ task_steps 0 ∷ []

-- Connection 0 is served and connection 1 is still in its start hook when the shutdown begins.
abbrev closing : List Event
closing =
    shuts_down
    ∷ accept_fails
    ∷ shutdown_steps
    ∷ shutdown_steps
    ∷ task_steps 0
    ∷ task_steps 1
    ∷ task_steps 0
    ∷ task_steps 1
    ∷ task_steps 0
    ∷ task_steps 1
    ∷ task_steps 1
    ∷ shutdown_steps
    ∷ shutdown_steps
    ∷ worker_returns
    ∷ worker_returns
    ∷ shutdown_steps
    ∷ []

abbrev begin : Server
begin = run small (new_server small none) opening

abbrev ended : Server
ended = run small (new_server small none) (opening ++ closing)

two_tasks : size begin.tasks ≡ 2
unfolding new_server run step start_with_error accept_conn register task_step stop_task
    shutdown_call shutdown_step get put new_conn_manager add
two_tasks = refl

ended_done : ended.shutdown ≡ done
unfolding new_server run step start_with_error accept_conn accept_error register task_step stop_task
    shutdown_call shutdown_step worker_ends get put delete new_conn_manager add remove clear_conn
    stop_all
ended_done = refl

run-new_server-done_example :
    (ended.stopped ≡ true)
    × (ended.tasks ≡ [])
    × ((k : ℕ) → has k ended.conn_mgr.connections ≡ false)
    × ((ended.accept ≡ idle) ⊎ (ended.accept ≡ exited))
    × (ended.workers ≡ 0)
    × (ended.routers ≡ 0)
    × (ended.metrics.connections ≡ 0)
run-new_server-done_example =
    run-new_server-done small none (opening ++ closing) ended refl ended_done

abbrev stopping : List Event
stopping = opening ++ (shuts_down ∷ [])
