-- ===== src/Gnet/Server/Accepting.antt =====
-- The start of a server and its accept loop keep the invariant.
use ginx.Prelude.{
  ℕ, ◌+◌, ◌==◌, ◌||◌, ◌%◌, ◌^◌, ◌≡◌, refl, inl, inr, Bool, true, false, some, arith, if◌then◌else◌,
  nat_eq, string_eq, ok, err, Result-cases, int_eq,
}
use ginx.GoMap.{has, size}
use ginx.GoMap.Laws.{get-put, size-put, put-IsUnique}
use ginx.Gnet.Config.{Config}
use ginx.Gnet.ConnManager.{ConnManager, add}
use ginx.Gnet.ConnManager.Registry.{add_accepts, add-IsWf}
use ginx.Metrics.Totals.{add_connections-one}
use ginx.Gnet.Server.{
  Server, Task, starting, AcceptPhase, idle, waiting, exited, holding, start_with_error, start_body,
  start_pool, accept_conn, accept_error, register, keep, all_over, listen_failed,
}
use ginx.Gnet.Server.Invariant.{IsServer, update-IsServer, if-IsServer, after_clear}

module _ (global : Config) (s : Server) (v : IsServer global s) where
  -- The accept loop goes on or ends, from a point where it was not over.
  accept-IsServer :
      (a : AcceptPhase) (cid : ℕ)
      → all_over s ≡ false
      → IsServer global (record s { accept = a; cid = cid })
  accept-IsServer a cid busy =
      update-IsServer global s v _ refl refl refl refl (λ h. h)
        (λ h. ground (arith, busy, h, v.over))

  pub start_with_error-IsServer : (listens : Bool) → IsServer global (start_with_error listens s).1
  unfolding start_with_error
  start_with_error-IsServer listens =
      if-IsServer global s v s.start_once s (start_body listens s) (λ b. v)
        λ b.
          if-IsServer global s v s.stopped _ _
            (λ t. update-IsServer global s v _ refl refl refl refl (λ h. h) v.over) (begins listens)
    where
      begins :
          (listens : Bool)
          → s.stopped ≡ false
          → IsServer global (
              if listens
              then start_pool (record s { start_once = true; listening = true; accept = waiting })
              else record s { start_once = true; start_err = some listen_failed; stopped = true })
      begins true t =
          if-IsServer global s v (s.pool_size == 0 || s.pool_stopping) _ _
            (λ b.
              update-IsServer global s v _ refl refl refl refl (λ h. h)
                (λ h. ground (arith, t, h, v.flagged)))
            (λ b.
              update-IsServer global s v _ refl refl refl refl (λ h. h)
                (λ h. ground (arith, t, h, v.flagged)))
      begins false t = update-IsServer global s v _ refl refl refl refl (λ h. refl) v.over

  pub accept_conn-IsServer : IsServer global (accept_conn s)
  unfolding accept_conn
  accept_conn-IsServer = go s.accept refl
    where
      go : (a : AcceptPhase) → s.accept ≡ a → IsServer global (accept_conn s)
      go idle e = rw (e, accept_conn) v
      go exited e = rw (e, accept_conn) v
      go (holding id) e = rw (e, accept_conn) v
      go waiting e =
          rw (e, accept_conn)
            (if-IsServer global s v s.stopped _ _
              (λ t. accept-IsServer exited s.cid (ground (arith, e)))
              (λ t. accept-IsServer (holding s.cid) ((s.cid + 1) % 2 ^ 32) (ground (arith, e))))

  pub accept_error-IsServer : IsServer global (accept_error s)
  unfolding accept_error
  accept_error-IsServer = go s.accept refl
    where
      go : (a : AcceptPhase) → s.accept ≡ a → IsServer global (accept_error s)
      go idle e = rw (e, accept_error) v
      go exited e = rw (e, accept_error) v
      go (holding id) e = rw (e, accept_error) v
      go waiting e =
          rw (e, accept_error)
            (if-IsServer global s v s.stopped _ s
              (λ t. accept-IsServer exited s.cid (ground (arith, e))) (λ t. v))

  -- A connection that is kept was neither registered nor had a task.
  keep-IsServer :
      (id : ℕ) (cm : ConnManager ℕ)
      → s.stopped ≡ false
      → add (λ (c : ℕ). c) global s.conn_mgr (some id) ≡ ok cm
      → IsServer global (keep s id cm)
  keep-IsServer id cm t e =
      let (new, _, same) = add_accepts (λ (c : ℕ). c) global s.conn_mgr cm id e in
      let task : Task = record { phase = starting; stopped = false } in
      let early : after_clear s.shutdown ≡ false = ground (arith, t, v.flagged) in
      let free : has id s.tasks ≡ false = ground (arith, new, v.registered early id) in
      record {
        unique = put-IsUnique id task s.tasks v.unique;
        wf = add-IsWf (λ (c : ℕ). c) global s.conn_mgr cm id v.wf e;
        flagged = v.flagged;
        registered = λ h k. ground (
          arith,
          same,
          v.registered early k,
          get-put k id task s.tasks,
          get-put k id id s.conn_mgr.connections,
        );
        unregistered = λ h k. ground (arith, h, early);
        ending = λ h k. ground (arith, h, early);
        over = λ h. ground (arith, h, early);
        gauge = ground (
          arith,
          free,
          size-put id task s.tasks,
          add_connections-one s.metrics (size s.tasks) v.gauge,
        );
      }

  pub register-IsServer : IsServer global (register global s)
  unfolding register
  register-IsServer = go s.accept refl
    where
      go : (a : AcceptPhase) → s.accept ≡ a → IsServer global (register global s)
      go idle e = rw (e, register) v
      go exited e = rw (e, register) v
      go waiting e = rw (e, register) v
      go (holding id) e =
          rw (e, register)
            (if-IsServer global s v s.stopped _ _
              (λ t. accept-IsServer exited s.cid (ground (arith, e))) (λ t. added id e t))
        where
          added :
              (id : ℕ)
              → s.accept ≡ holding id
              → s.stopped ≡ false
              → IsServer global (elim (add (λ (c : ℕ). c) global s.conn_mgr (some id)) [
                | err x ↦ record s { accept = waiting }
                | ok cm ↦ keep s id cm
              ])
          added id e t = elim (Result-cases (add (λ (c : ℕ). c) global s.conn_mgr (some id))) [
            | inr (x, f) ↦ rw f (accept-IsServer waiting s.cid (ground (arith, e)))
            | inl (cm, f) ↦ rw f (keep-IsServer id cm t f)
          ]
