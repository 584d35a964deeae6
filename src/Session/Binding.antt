-- ===== src/Session/Binding.antt =====
-- Bind and Touch: a session's connection and its last activity.
use ginx.Prelude.{
  ℕ, String, ◌≡◌, refl, sym, subst, ◌⊎◌, inl, inr, true, false, none, some, arith, if◌then◌else◌,
  ◌==◌, nat_eq, string_eq, Option-cases, ok,
}
use ginx.GoMap.{GoMap, get, put}
use ginx.GoMap.Laws.{get-put, put-IsUnique}
use text.Mathlib.TextEquality.{eq_iff}
use ginx.Session.{Session, Manager, expired, bind, touch}
use ginx.Session.Invariant.{IsConsistent, conn_of}

abbrev bound_to : Session → ℕ → ℕ → Session
bound_to s conn later = record s { conn_id = conn; bound = true; updated_at = later }

abbrev bound_manager : Manager → String → Session → ℕ → ℕ → Manager
bound_manager m token s conn later = record m {
  by_token = put token (bound_to s conn later) m.by_token;
  by_conn_id = put conn token m.by_conn_id;
}

-- Bind succeeds exactly for a session that has not run out and is not bound elsewhere, on a
-- connection that no other session has; the session then has the connection.
pub record Binds (m : Manager) (token : String) (conn now later : ℕ) (value : Session)
    (m' : Manager) : Type 0 where
  pub session : Session
  pub found : get token m.by_token ≡ some session
  pub live : expired session now ≡ false
  pub at_home : (session.bound ≡ false) ⊎ (session.conn_id ≡ conn)
  pub conn_free : (get conn m.by_conn_id ≡ none) ⊎ (get conn m.by_conn_id ≡ some token)
  pub result : value ≡ bound_to session conn later
  pub state : m' ≡ bound_manager m token session conn later

module _ (m : Manager) (token : String) (conn now later : ℕ) where
  pub bind-Binds :
      (value : Session) (m' : Manager)
      → bind m token conn now later ≡ ok (value, m')
      → Binds m token conn now later value m'
  unfolding bind
  bind-Binds value m' h = elim (Option-cases (get token m.by_token)) [
    | inl e ↦ absurd (ground (arith, h, e))
    | inr (s, e) ↦ elim (Option-cases (get conn m.by_conn_id)) [
      | inl f ↦ record {
        session = s;
        found = e;
        live = ground (arith, h, e);
        at_home = ground (arith, h, e);
        conn_free = inl f;
        result = ground (arith, h, e, f);
        state = ground (arith, h, e, f);
      }
      | inr (other, f) ↦ record {
        session = s;
        found = e;
        live = ground (arith, h, e);
        at_home = ground (arith, h, e);
        conn_free = inr (ground (arith, h, e, f, eq_iff other token));
        result = ground (arith, h, e, f);
        state = ground (arith, h, e, f);
      }
    ]
  ]

  pub Binds-bind :
      (value : Session) (m' : Manager)
      → Binds m token conn now later value m'
      → bind m token conn now later ≡ ok (value, m')
  unfolding bind
  Binds-bind value m' b = ground (arith, b, eq_iff token token)

module _ (m : Manager) (v : IsConsistent m) (token : String) (s : Session)
    (e : get token m.by_token ≡ some s) where
  -- A session of the same token, account and player in place of the old one, with a connection map
  -- that agrees with it.
  update-IsConsistent :
      (s' : Session) (conns : GoMap ℕ String)
      → s'.token ≡ s.token
      → s'.account_id ≡ s.account_id
      → s'.player_id ≡ s.player_id
      → ((c : ℕ) (t : String)
          → get c conns ≡ some t
          → conn_of (if token == t then some s' else get t m.by_token) ≡ some c)
      → ((t : String) (c : ℕ)
          → conn_of (if token == t then some s' else get t m.by_token) ≡ some c
          → get c conns ≡ some t)
      → IsConsistent (record m { by_token = put token s' m.by_token; by_conn_id = conns })
  update-IsConsistent s' conns same_token same_account same_player leads found = record {
    unique = put-IsUnique token s' m.by_token v.unique;
    keyed = λ t r g. ground (
      arith,
      g,
      same_token,
      v.keyed token s e,
      get-put t token s' m.by_token,
      v.keyed t r,
      eq_iff token t,
    );
    account_leads = λ a t g. ground (
      arith,
      g,
      e,
      same_account,
      get-put t token s' m.by_token,
      v.account_leads a t,
      eq_iff token t,
    );
    account_found = λ t a g. ground (
      arith,
      g,
      e,
      same_account,
      get-put t token s' m.by_token,
      v.account_found t a,
      eq_iff token t,
    );
    player_leads = λ p t g. ground (
      arith,
      g,
      e,
      same_player,
      get-put t token s' m.by_token,
      v.player_leads p t,
      eq_iff token t,
    );
    player_found = λ t p g. ground (
      arith,
      g,
      e,
      same_player,
      get-put t token s' m.by_token,
      v.player_found t p,
      eq_iff token t,
    );
    conn_leads = λ c t g. rw (get-put t token s' m.by_token) (leads c t g);
    conn_found = λ t c g. found t c (rw (get-put t token s' m.by_token) at g);
  }

  bound_manager-IsConsistent :
      (conn later : ℕ)
      → ((s.bound ≡ false) ⊎ (s.conn_id ≡ conn))
      → ((get conn m.by_conn_id ≡ none) ⊎ (get conn m.by_conn_id ≡ some token))
      → IsConsistent (bound_manager m token s conn later)
  bound_manager-IsConsistent conn later home free =
      update-IsConsistent (bound_to s conn later) (put conn token m.by_conn_id) refl refl refl
        (λ c t g.
          ground (
            arith,
            g,
            e,
            home,
            get-put c conn token m.by_conn_id,
            v.conn_leads c t,
            eq_iff token t,
          ))
        (λ t c g. ground (
          arith,
          g,
          e,
          free,
          get-put c conn token m.by_conn_id,
          v.conn_found t c,
          v.conn_leads conn token,
          eq_iff token t,
        ))

  touched-IsConsistent :
      (later : ℕ)
      → IsConsistent
          (record m { by_token = put token (record s { updated_at = later }) m.by_token })
  touched-IsConsistent later =
      update-IsConsistent (record s { updated_at = later }) m.by_conn_id refl refl refl
        (λ c t g. ground (arith, g, e, v.conn_leads c t, eq_iff token t))
        (λ t c g. ground (arith, g, e, v.conn_found t c, eq_iff token t))

module _ (m : Manager) (v : IsConsistent m) (token : String) where
  pub bind-IsConsistent :
      (conn now later : ℕ) (value : Session) (m' : Manager)
      → bind m token conn now later ≡ ok (value, m')
      → IsConsistent m'
  bind-IsConsistent conn now later value m' h =
      let b = bind-Binds m token conn now later value m' h in
      subst IsConsistent (sym b.state)
        (bound_manager-IsConsistent m v token b.session b.found conn later b.at_home b.conn_free)

  pub touch-IsConsistent :
      (now later : ℕ) (m' : Manager) → touch m token now later ≡ ok m' → IsConsistent m'
  unfolding touch
  touch-IsConsistent now later m' h = elim (Option-cases (get token m.by_token)) [
    | inl e ↦ absurd (ground (arith, h, e))
    | inr (s, e) ↦
        subst IsConsistent (ground (arith, h, e)) (touched-IsConsistent m v token s e later)
  ]
