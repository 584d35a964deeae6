-- ===== src/Gnet/Server/Invariant.antt =====
-- What holds of a server after any events.
use ginx.Prelude.{
  ℕ, ◌%◌, ◌^◌, ◌≡◌, refl, sym, subst, Bool, true, false, Option, none, some, [], arith,
  if◌then◌else◌, nat_eq, string_eq, int_eq,
}
use ginx.GoMap.{get, has, size, IsUnique}
use ginx.GoMap.Laws.{get_empty}
use ginx.Gnet.Config.{Config}
use ginx.Gnet.ConnManager.Registry.{IsWf, new_conn_manager-IsWf}
use ginx.Gnet.ConnManager.Effects.{new_conn_manager-connections}
use ginx.Gnet.Server.{
  Server, Task, ShutdownPhase, not_called, called, closed, drained, queues_closed, done, new_server,
  all_over,
}

-- Whether Shutdown was called, whether it has cleared the connections, and whether it has waited.
abbrev pub begun : ShutdownPhase → Bool
begun not_called = false
begun _ = true

abbrev pub after_clear : ShutdownPhase → Bool
after_clear not_called = false
after_clear called = false
after_clear closed = false
after_clear _ = true

abbrev pub waited : ShutdownPhase → Bool
waited drained = true
waited queues_closed = true
waited done = true
waited _ = false

abbrev pub is_stopped : Option Task → Bool
is_stopped none = true
is_stopped (some task) = task.stopped

module _ (global : Config) where
  -- The stop flag is set once Shutdown is called. Until the connections are cleared, exactly the registered
  -- ones have a task; from then on none is registered and each task that is left is stopped. Once Shutdown
  -- has waited, no task is left and the accept loop is over. The gauge counts the tasks.
  pub record IsServer (s : Server) : Type 0 where
    pub unique : IsUnique s.tasks
    pub wf : IsWf (λ (c : ℕ). c) global s.conn_mgr
    pub flagged : begun s.shutdown ≡ true → s.stopped ≡ true
    pub registered :
        after_clear s.shutdown ≡ false → (k : ℕ) → has k s.conn_mgr.connections ≡ has k s.tasks
    pub unregistered :
        after_clear s.shutdown ≡ true → (k : ℕ) → has k s.conn_mgr.connections ≡ false
    pub ending : after_clear s.shutdown ≡ true → (k : ℕ) → is_stopped (get k s.tasks) ≡ true
    pub over : waited s.shutdown ≡ true → all_over s ≡ true
    pub gauge : s.metrics.connections ≡ size s.tasks % 2 ^ 64

  pub new_server-IsServer : (config : Option Config) → IsServer (new_server global config)
  unfolding new_server
  new_server-IsServer config = record {
    unique = tt;
    wf = new_conn_manager-IsWf (λ (c : ℕ). c) global config;
    flagged = λ h. ground (arith, h);
    registered = λ h k. ground (
      arith,
      get_empty k (new_server global config).conn_mgr.connections
          (new_conn_manager-connections ℕ config),
      get_empty {V = Task} k [] refl,
    );
    unregistered = λ h k. ground (arith, h);
    ending = λ h k. ground (arith, h);
    over = λ h. ground (arith, h);
    gauge = refl;
  }

  module _ (s : Server) (v : IsServer s) where
    -- Nothing that the invariant speaks of has changed, but perhaps the stop flag, or the accept loop before
    -- Shutdown has waited.
    pub update-IsServer :
        (s' : Server)
        → s'.tasks ≡ s.tasks
        → s'.conn_mgr ≡ s.conn_mgr
        → s'.metrics ≡ s.metrics
        → s'.shutdown ≡ s.shutdown
        → (s.stopped ≡ true → s'.stopped ≡ true)
        → (waited s.shutdown ≡ true → all_over s' ≡ true)
        → IsServer s'
    update-IsServer s' et ec em es flag over = record {
      unique = subst IsUnique (sym et) v.unique;
      wf = subst (IsWf (λ (c : ℕ). c) global) (sym ec) v.wf;
      flagged = λ h. flag (v.flagged (ground (arith, h, es)));
      registered = λ h k. rw (et, ec) (v.registered (ground (arith, h, es)) k);
      unregistered = λ h k. rw ec (v.unregistered (ground (arith, h, es)) k);
      ending = λ h k. rw et (v.ending (ground (arith, h, es)) k);
      over = λ h. over (ground (arith, h, es));
      gauge = rw (em, et) v.gauge;
    }

    pub if-IsServer :
        (test : Bool) (x y : Server)
        → (test ≡ true → IsServer x)
        → (test ≡ false → IsServer y)
        → IsServer (if test then x else y)
    if-IsServer true x y hx hy = hx refl
    if-IsServer false x y hx hy = hy refl
