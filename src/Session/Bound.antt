-- ===== src/Session/Bound.antt =====
-- What a binding holds to: session/session.go's `Bind` and `GetByConnID` after it.
use ginx.Prelude.{
  ℕ, String, ◌≡◌, ◌≢◌, false, some, arith, if◌then◌else◌, nat_eq, string_eq, ok, err,
}
use ginx.GoMap.{get}
use ginx.GoMap.Laws.{get-put}
use text.Mathlib.TextEquality.{eq_iff}
use ginx.Session.{
  Session, Manager, bind, get_by_conn_id, expired, session_expired, already_bound,
  connection_authenticated,
}
use ginx.Session.Binding.{bind-Binds, Binds}

module _ (m m' : Manager) (token : String) (conn now later : ℕ) (value : Session)
    (bound : bind m token conn now later ≡ ok (value, m')) where
  binds : Binds m token conn now later value m'
  binds = bind-Binds m token conn now later value m' bound

  token_leads : get token m'.by_token ≡ some value
  token_leads = ground (arith, binds, get-put token token value m.by_token, eq_iff token token)

  conn_leads : get conn m'.by_conn_id ≡ some token
  conn_leads = ground (arith, binds.state, get-put conn conn token m.by_conn_id)

  -- In the manager that Bind leaves, its connection finds the session that it hands back, unless that
  -- has run out.
  pub get_by_conn_id-bind :
      (t : ℕ)
      → get_by_conn_id m' conn t ≡ (if expired value t then err session_expired else ok value)
  unfolding get_by_conn_id
  get_by_conn_id-bind t = ground (arith, token_leads, conn_leads)

  -- A session that is bound and has not run out is not bound to another connection.
  pub bind-bind_elsewhere :
      (other t u : ℕ)
      → other ≢ conn
      → expired value t ≡ false
      → bind m' token other t u ≡ err already_bound
  unfolding bind
  bind-bind_elsewhere other t u n live = ground (arith, token_leads, binds.result, live, n)

  -- Another session, live and not bound yet, is not bound to a connection that has one.
  pub bind-bind_rival :
      (rival : String) (r : Session) (t u : ℕ)
      → rival ≢ token
      → get rival m.by_token ≡ some r
      → expired r t ≡ false
      → r.bound ≡ false
      → bind m' rival conn t u ≡ err connection_authenticated
  unfolding bind
  bind-bind_rival rival r t u n f live free = ground (
    arith,
    conn_leads,
    live,
    free,
    binds.state,
    f,
    get-put rival token value m.by_token,
    eq_iff token rival,
    binds.result,
  )
