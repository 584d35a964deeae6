-- ===== src/Gnet/Server/Draining.antt =====
-- What is left of the tasks of the connections, and how their steps and the stops change it.
use ginx.Prelude.{
  ℕ, ◌+◌, ◌≤◌, ◌<◌, ◌≡◌, refl, ap, ◌∙◌, inl, inr, true, some, List, [], ◌∷◌, arith, ◌==◌, ==_iff,
  nat_eq, string_eq, Bool-cases, Option-cases, int_eq,
}
use ginx.GoMap.{GoMap, get, put, delete}
use ginx.Gnet.ConnManager.{ConnManager, clear_conn, snapshot, stop_all}
use ginx.Gnet.ConnManager.Effects.{clear_conn-stop_all}
use ginx.Gnet.Server.{Task, TaskPhase, starting, running, stopping, leaving, stop_task}

-- The steps that are left of a task.
abbrev pub steps_left : TaskPhase → ℕ
steps_left starting = 4
steps_left running = 3
steps_left stopping = 2
steps_left leaving = 1

pub steps_bounds : (p : TaskPhase) → (0 < steps_left p) × (steps_left p ≤ 4)
steps_bounds starting = (omega arith, omega arith)
steps_bounds running = (omega arith, omega arith)
steps_bounds stopping = (omega arith, omega arith)
steps_bounds leaving = (omega arith, omega arith)

-- The steps that are left of all tasks.
pub tasks_left : GoMap ℕ Task → ℕ
tasks_left [] = 0
tasks_left ((id, task) ∷ tasks) = steps_left task.phase + tasks_left tasks

pub tasks_left-put :
    (id : ℕ) (task task' : Task) (tasks : GoMap ℕ Task)
    → get id tasks ≡ some task
    → tasks_left (put id task' tasks) + steps_left task.phase
      ≡ tasks_left tasks + steps_left task'.phase
unfolding tasks_left get put
tasks_left-put id task task' [] e = absurd (ground (arith, e))
tasks_left-put id task task' ((j, t) ∷ tasks) e = elim (Bool-cases (j == id)) [
  | inl same ↦
      let here : t ≡ task = ground (arith, e, same) in
      ground (arith, same, ap (λ (u : Task). steps_left u.phase) here)
  | inr other ↦ ground (arith, other, tasks_left-put id task task' tasks (ground (arith, e, other)))
]

tasks_left-delete_le :
    (id : ℕ) (tasks : GoMap ℕ Task) → tasks_left (delete id tasks) ≤ tasks_left tasks
unfolding tasks_left delete
tasks_left-delete_le id [] = omega arith
tasks_left-delete_le id ((j, t) ∷ tasks) =
    ground (arith, tasks_left-delete_le id tasks, Bool-cases (j == id))

pub tasks_left-delete :
    (id : ℕ) (task : Task) (tasks : GoMap ℕ Task)
    → get id tasks ≡ some task
    → tasks_left (delete id tasks) < tasks_left tasks
unfolding tasks_left get delete
tasks_left-delete id task [] e = absurd (ground (arith, e))
tasks_left-delete id task ((j, t) ∷ tasks) e = elim (Bool-cases (j == id)) [
  | inl same ↦ ground (arith, same, tasks_left-delete_le id tasks, (steps_bounds t.phase).0)
  | inr other ↦ ground (arith, other, tasks_left-delete id task tasks (ground (arith, e, other)))
]

pub put_same :
    (id : ℕ) (task : Task) (tasks : GoMap ℕ Task)
    → get id tasks ≡ some task
    → put id task tasks ≡ tasks
unfolding get put
put_same id task [] e = absurd (ground (arith, e))
put_same id task ((j, t) ∷ tasks) e = elim (Bool-cases (j == id)) [
  | inl same ↦ ground (arith, same, e, (==_iff j id))
  | inr other ↦ ground (arith, other, put_same id task tasks (ground (arith, e, other)))
]

-- A stop does not move a task on.
pub tasks_left-stop_task :
    (id : ℕ) (tasks : GoMap ℕ Task) → tasks_left (stop_task id tasks) ≡ tasks_left tasks
unfolding stop_task
tasks_left-stop_task id tasks = elim (Option-cases (get id tasks)) [
  | inl n ↦ rw (n, stop_task) refl
  | inr (task, e) ↦
      rw (e, stop_task)
        (omega (arith, tasks_left-put id task (record task { stopped = true }) tasks e))
]

tasks_left-stop_all :
    (ids : List ℕ) (tasks : GoMap ℕ Task)
    → tasks_left (stop_all stop_task ids tasks) ≡ tasks_left tasks
unfolding stop_all
tasks_left-stop_all [] tasks = refl
tasks_left-stop_all (id ∷ ids) tasks =
    tasks_left-stop_all ids (stop_task id tasks) ∙ tasks_left-stop_task id tasks

pub tasks_left-clear_conn :
    (cm : ConnManager ℕ) (tasks : GoMap ℕ Task)
    → tasks_left (clear_conn stop_task cm tasks).1 ≡ tasks_left tasks
tasks_left-clear_conn cm tasks =
    ap tasks_left (clear_conn-stop_all cm stop_task tasks)
    ∙ tasks_left-stop_all (snapshot cm.connections) tasks
