-- ===== src/Gnet/Server/Stopping.antt =====
-- What stopping one connection and stopping all of them does to the tasks.
use ginx.Prelude.{
  ℕ, ◌≡◌, refl, sym, ap, subst, ◌∙◌, inl, inr, true, Option, none, some, List, [], ◌∷◌, arith,
  if◌then◌else◌, ◌==◌, nat_eq, string_eq, Option-cases, elem, int_eq,
}
use ginx.GoMap.{GoMap, get, has, size, IsUnique}
use ginx.GoMap.Laws.{get-put, size-put, put-IsUnique}
use ginx.Gnet.ConnManager.{ConnManager, clear_conn, snapshot, stop_all}
use ginx.Gnet.ConnManager.Registry.{IsWf}
use ginx.Gnet.ConnManager.Effects.{clear_conn-stop_all}
use ginx.Gnet.Config.{Config}
use ginx.Gnet.Server.{Task, stop_task}

abbrev pub stopped_task : Option Task → Option Task
stopped_task none = none
stopped_task (some task) = some (record task { stopped = true })

module _ (ts : GoMap ℕ Task) where
  pub get-stop_task :
      (id k : ℕ) → get k (stop_task id ts) ≡ (if id == k then stopped_task (get k ts) else get k ts)
  unfolding stop_task
  get-stop_task id k = elim (Option-cases (get id ts)) [
    | inl n ↦ rw (n, stop_task) (ground (arith, n, (λ (t : id ≡ k). ap (λ (i : ℕ). get i ts) t)))
    | inr (task, e) ↦
        rw (e, stop_task)
          (ground (
            arith,
            e,
            get-put k id (record task { stopped = true }) ts,
            (λ (t : id ≡ k). ap (λ (i : ℕ). get i ts) t),
          ))
  ]

  pub size-stop_task : (id : ℕ) → size (stop_task id ts) ≡ size ts
  unfolding stop_task
  size-stop_task id = elim (Option-cases (get id ts)) [
    | inl n ↦ rw (n, stop_task) refl
    | inr (task, e) ↦
        rw (e, stop_task) (ground (arith, e, size-put id (record task { stopped = true }) ts))
  ]

  pub stop_task-IsUnique : (id : ℕ) → IsUnique ts → IsUnique (stop_task id ts)
  unfolding stop_task
  stop_task-IsUnique id u = elim (Option-cases (get id ts)) [
    | inl n ↦ rw (n, stop_task) u
    | inr (task, e) ↦ rw (e, stop_task) (put-IsUnique id (record task { stopped = true }) ts u)
  ]

stop_all-get :
    (ids : List ℕ) (ts : GoMap ℕ Task) (k : ℕ)
    → get k (stop_all stop_task ids ts) ≡ (if elem k ids then stopped_task (get k ts) else get k ts)
unfolding stop_all
stop_all-get [] ts k = refl
stop_all-get (id ∷ ids) ts k =
    ground
      (arith, stop_all-get ids (stop_task id ts) k, get-stop_task ts id k, Option-cases (get k ts))

stop_all-size : (ids : List ℕ) (ts : GoMap ℕ Task) → size (stop_all stop_task ids ts) ≡ size ts
unfolding stop_all
stop_all-size [] ts = refl
stop_all-size (id ∷ ids) ts = stop_all-size ids (stop_task id ts) ∙ size-stop_task ts id

stop_all-IsUnique :
    (ids : List ℕ) (ts : GoMap ℕ Task) → IsUnique ts → IsUnique (stop_all stop_task ids ts)
unfolding stop_all
stop_all-IsUnique [] ts u = u
stop_all-IsUnique (id ∷ ids) ts u =
    stop_all-IsUnique ids (stop_task id ts) (stop_task-IsUnique ts id u)

-- A manager whose connections stand under their own identifiers lists exactly its keys.
elem-snapshot :
    (k : ℕ) (m : GoMap ℕ ℕ)
    → IsUnique m
    → ((i c : ℕ) → get i m ≡ some c → c ≡ i)
    → elem k (snapshot m) ≡ has k m
unfolding get
elem-snapshot k [] u own = refl
elem-snapshot k ((i, c) ∷ m) u own =
    ground (arith, own i c, elem-snapshot k m u.1 λ j d e. own j d (ground (arith, e, u.0)))

module _ (global : Config) (cm : ConnManager ℕ) (w : IsWf (λ (c : ℕ). c) global cm)
    (ts : GoMap ℕ Task) where
  abbrev after_clear : GoMap ℕ Task
  after_clear = (clear_conn stop_task cm ts).1

  -- Clearing the manager stops the task of each connection that is registered.
  pub get-clear_conn :
      (k : ℕ)
      → get k after_clear ≡ (if has k cm.connections then stopped_task (get k ts) else get k ts)
  get-clear_conn k = ground (
    arith,
    ap (get k) (clear_conn-stop_all cm stop_task ts),
    stop_all-get (snapshot cm.connections) ts k,
    elem-snapshot k cm.connections w.unique w.keyed,
  )

  pub size-clear_conn : size after_clear ≡ size ts
  size-clear_conn =
      ap size (clear_conn-stop_all cm stop_task ts) ∙ stop_all-size (snapshot cm.connections) ts

  pub clear_conn-IsUnique : IsUnique ts → IsUnique after_clear
  clear_conn-IsUnique u =
      subst IsUnique (sym (clear_conn-stop_all cm stop_task ts))
        (stop_all-IsUnique (snapshot cm.connections) ts u)
