-- ===== src/Gameapp/Service/Keeping.antt =====
-- The seats stay right when sessions end, when time passes and when somebody logs in.
use ginx.Prelude.{
  ℕ, String, ◌≡◌, refl, sym, subst, inl, inr, Bool, true, false, not, Option, none, some, List, [],
  ◌∷◌, arith, if◌then◌else◌, ◌==◌, nat_eq, string_eq, Bool-cases, Option-cases, Result-cases,
  int_eq,
}
use ginx.GoMap.{GoMap, get, keys}
use ginx.Persist.Memory.{Context}
use ginx.Session.{Session, remove_expired, issue}
use ginx.Gcore.Room.Manager.{IsRegistry}
use ginx.Gameapp.Service.{
  Account, PlayerStore, Service, ConnectedPlayer, disconnect_locked, overdue,
}
use ginx.Gameapp.Service.Login.{login, login_locked, is_refused, load_or_create, drop_replaced}
use ginx.Gameapp.Service.Closing.{drop_sessions, drop_overdue, drop_all, sweep, close_service}
use ginx.Gameapp.Service.Steps.{IsSeated, disconnect_locked-IsSeated}

module _ {C S : Type 0} (get_conn_id : C → ℕ) where
  -- Only the rooms and the connections matter.
  pub update-IsSeated :
      (s s' : Service C S)
      → s'.rooms ≡ s.rooms
      → s'.connections ≡ s.connections
      → IsSeated get_conn_id s
      → IsSeated get_conn_id s'
  update-IsSeated s s' e f v = record {
    registry = subst IsRegistry (sym e) v.registry;
    no_zero = rw e v.no_zero;
    owned = λ k p g. v.owned k p (ground (arith, f, g));
    seated = λ i k. rw (e, f) (v.seated i k);
  }

  disconnect_if-IsSeated :
      (test : Bool) (s : Service C S) (k : ℕ)
      → IsSeated get_conn_id s
      → IsSeated get_conn_id (if test then disconnect_locked s k true else s)
  disconnect_if-IsSeated true s k v = disconnect_locked-IsSeated get_conn_id s v k true
  disconnect_if-IsSeated false s k v = v

  drop_sessions-IsSeated :
      (values : List Session) (s : Service C S)
      → IsSeated get_conn_id s
      → IsSeated get_conn_id (drop_sessions values s)
  unfolding drop_sessions
  drop_sessions-IsSeated [] s v = v
  drop_sessions-IsSeated (value ∷ rest) s v =
      drop_sessions-IsSeated rest _ (disconnect_if-IsSeated value.bound s value.conn_id v)

  drop_overdue-IsSeated :
      (now : ℕ) (ps : GoMap ℕ (ConnectedPlayer C)) (s : Service C S)
      → IsSeated get_conn_id s
      → IsSeated get_conn_id (drop_overdue now ps s)
  unfolding drop_overdue
  drop_overdue-IsSeated now [] s v = v
  drop_overdue-IsSeated now ((id, p) ∷ rest) s v =
      drop_overdue-IsSeated now rest _ (disconnect_if-IsSeated (overdue p now) s id v)

  drop_all-IsSeated :
      (ids : List ℕ) (s : Service C S)
      → IsSeated get_conn_id s
      → IsSeated get_conn_id (drop_all ids s)
  unfolding drop_all
  drop_all-IsSeated [] s v = v
  drop_all-IsSeated (id ∷ ids) s v =
      drop_all-IsSeated ids _ (disconnect_locked-IsSeated get_conn_id s v id true)

  pub sweep-IsSeated :
      (s : Service C S) (now : ℕ) → IsSeated get_conn_id s → IsSeated get_conn_id (sweep s now)
  unfolding sweep
  sweep-IsSeated s now v =
      let start : Service C S = record s { sessions = (remove_expired s.sessions now).1 } in
      let removed = (remove_expired s.sessions now).0 in
      let middle = drop_sessions-IsSeated removed start (update-IsSeated s start refl refl v) in
      drop_overdue-IsSeated now (drop_sessions removed start).connections
        (drop_sessions removed start) middle

  pub close_service-IsSeated :
      (s : Service C S) → IsSeated get_conn_id s → IsSeated get_conn_id (close_service s)
  unfolding close_service
  close_service-IsSeated s v =
      drop_all-IsSeated (keys s.connections) _ (update-IsSeated s _ refl refl v)

module _ {C S E : Type 0} (get_conn_id : C → ℕ) (players : PlayerStore S E) where
  login_locked-IsSeated :
      (s : Service C S) (ctx : Context) (account : Account) (account_id token : String)
      (now now' : ℕ)
      → IsSeated get_conn_id s
      → IsSeated get_conn_id (login_locked players s ctx account account_id token now now').1
  unfolding login_locked
  login_locked-IsSeated s ctx account account_id token now now' v =
      elim (Result-cases (load_or_create players s.store ctx account_id account.player_id now)) [
        | inr (x, e) ↦ rw (e, login_locked) v
        | inl ((player, store), e) ↦
            let s' : Service C S = record s { store = store } in
            let v' = update-IsSeated get_conn_id s s' refl refl v in
            elim (Bool-cases (not (player.account_id == account_id))) [
              | inl b ↦ rw (e, b, login_locked) v'
              | inr b ↦
                  elim (Result-cases
                    (issue s.sessions token account_id account.player_id s.ttl now')) [
                      | inr (x, f) ↦ rw (e, b, f, login_locked) v'
                      | inl ((value, old, sessions), f) ↦
                          rw (e, b, f, login_locked)
                            (drop_replaced-IsSeated old _ (
                              update-IsSeated get_conn_id s (record s' { sessions = sessions }) refl
                                refl v))
                    ]
            ]
      ]
    where
      drop_replaced-IsSeated :
          (old : Option Session) (s : Service C S)
          → IsSeated get_conn_id s
          → IsSeated get_conn_id (drop_replaced old s)
      drop_replaced-IsSeated none s v = v
      drop_replaced-IsSeated (some old) s v =
          disconnect_if-IsSeated get_conn_id old.bound s old.conn_id v

  pub login-IsSeated :
      (same_password : String → String → Bool) (s : Service C S) (ctx : Context)
      (account_id password token : String) (now now' : ℕ)
      → IsSeated get_conn_id s
      → IsSeated get_conn_id
          (login players same_password s ctx account_id password token now now').1
  unfolding login
  login-IsSeated same_password s ctx account_id password token now now' v =
      elim (Option-cases (get account_id s.accounts)) [
        | inl n ↦ elim (Bool-cases (is_refused same_password s none password)) [
          | inl b ↦ rw (n, b, login) v
          | inr b ↦ rw (n, b, login) v
        ]
        | inr (account, e) ↦
            elim (Bool-cases (is_refused same_password s (some account) password)) [
              | inl b ↦ rw (e, b, login) v
              | inr b ↦
                  rw (e, b, login) (login_locked-IsSeated s ctx account account_id token now now' v)
            ]
      ]
