-- ===== src/Session/Legacy.antt =====
-- legacy.go: Login, whose players are numbered by the counter.
use ginx.Prelude.{
  ℕ, ◌+◌, ◌%◌, ◌^◌, String, ◌≡◌, refl, sym, subst, inl, inr, true, Option, none, some, arith,
  nat_eq, string_eq, Option-cases, ok,
}
use ginx.GoMap.{get, put}
use ginx.GoMap.Laws.{get-put, get-delete}
use text.Mathlib.TextEquality.{eq_iff}
use ginx.Session.{Session, Manager, remove_locked}
use ginx.Session.Login.{login, login_session, drop_account, drop_conn, enter_bound}
use ginx.Session.Invariant.{
  IsConsistent, remove_locked-IsConsistent, get-remove_locked, insert-IsConsistent,
}

-- What was free stays free when a session goes.
record Frees (m m' : Manager) : Type 0 where
  accounts : (a : String) → get a m.by_account_id ≡ none → get a m'.by_account_id ≡ none
  players : (p : ℕ) → get p m.by_player_id ≡ none → get p m'.by_player_id ≡ none
  tokens : (t : String) → get t m.by_token ≡ none → get t m'.by_token ≡ none

module _ (m : Manager) (v : IsConsistent m) where
  m-Frees : Frees m m
  m-Frees = record { accounts = λ a f. f; players = λ p f. f; tokens = λ t f. f }

  remove_locked-Frees : (token : String) → Frees m (remove_locked m token)
  unfolding remove_locked
  remove_locked-Frees token = elim (Option-cases (get token m.by_token)) [
    | inl e ↦ record {
      accounts = λ a f. ground (arith, e, f);
      players = λ p f. ground (arith, e, f);
      tokens = λ t f. ground (arith, e, f);
    }
    | inr (s, e) ↦ record {
      accounts = λ a f. ground (arith, e, f, get-delete a s.account_id m.by_account_id);
      players = λ p f. ground (arith, e, f, get-delete p s.player_id m.by_player_id);
      tokens = λ t f. ground (arith, e, f, get-delete t token m.by_token);
    }
  ]

  -- The account that led to a session is free when that session goes, and so is the connection.
  remove_locked-frees_account :
      (account token : String)
      → get account m.by_account_id ≡ some token
      → get account (remove_locked m token).by_account_id ≡ none
  unfolding remove_locked
  remove_locked-frees_account account token e = elim (Option-cases (get token m.by_token)) [
    | inl lost ↦ absurd (ground (arith, lost, v.account_leads account token e))
    | inr (s, f) ↦ ground (
      arith,
      f,
      v.account_leads account token e,
      get-delete account s.account_id m.by_account_id,
      eq_iff s.account_id account,
    )
  ]

  remove_locked-frees_conn :
      (conn : ℕ) (token : String)
      → get conn m.by_conn_id ≡ some token
      → get conn (remove_locked m token).by_conn_id ≡ none
  remove_locked-frees_conn conn token e =
      elim (Option-cases (get conn (remove_locked m token).by_conn_id)) [
        | inl free ↦ free
        | inr (t, f) ↦ absurd (
            ground (
              arith,
              f,
              e,
              (remove_locked-IsConsistent m v token).conn_leads conn t f,
              get-remove_locked m v token t,
              v.conn_found t conn,
              eq_iff token t,
            ))
      ]

  drop_account-Frees :
      (account : String)
      → IsConsistent (drop_account m account)
        × Frees m (drop_account m account)
        × (get account (drop_account m account).by_account_id ≡ none)
  unfolding drop_account
  drop_account-Frees account = elim (Option-cases (get account m.by_account_id)) [
    | inl e ↦ rw (e, drop_account) (v, m-Frees, e)
    | inr (t, e) ↦
        rw (e, drop_account)
          (
            remove_locked-IsConsistent m v t,
            remove_locked-Frees t,
            remove_locked-frees_account account t e,
          )
  ]

  drop_conn-Frees :
      (conn : ℕ)
      → IsConsistent (drop_conn m conn)
        × Frees m (drop_conn m conn)
        × (get conn (drop_conn m conn).by_conn_id ≡ none)
  unfolding drop_conn
  drop_conn-Frees conn = elim (Option-cases (get conn m.by_conn_id)) [
    | inl e ↦ rw (e, drop_conn) (v, m-Frees, e)
    | inr (t, e) ↦
        rw (e, drop_conn)
          (
            remove_locked-IsConsistent m v t,
            remove_locked-Frees t,
            remove_locked-frees_conn conn t e,
          )
  ]

  enter_bound-IsConsistent :
      (s : Session)
      → s.bound ≡ true
      → get s.token m.by_token ≡ none
      → get s.account_id m.by_account_id ≡ none
      → get s.player_id m.by_player_id ≡ none
      → get s.conn_id m.by_conn_id ≡ none
      → IsConsistent (enter_bound m s)
  unfolding enter_bound
  enter_bound-IsConsistent s b t0 a0 p0 c0 =
      insert-IsConsistent m v s (put s.conn_id s.token m.by_conn_id) m.legacy t0 a0 p0
        (λ c t g. ground (
          arith,
          g,
          b,
          t0,
          get-put c s.conn_id s.token m.by_conn_id,
          v.conn_leads c t,
          eq_iff s.token t,
        ))
        (λ t c g. ground (
          arith,
          g,
          b,
          c0,
          get-put c s.conn_id s.token m.by_conn_id,
          v.conn_found t c,
          eq_iff s.token t,
        ))

  -- The counter is no part of the agreement.
  counted-IsConsistent : (legacy : Option ℕ) → IsConsistent (record m { legacy = legacy })
  counted-IsConsistent legacy = record {
    unique = v.unique;
    keyed = v.keyed;
    account_leads = v.account_leads;
    account_found = v.account_found;
    player_leads = v.player_leads;
    player_found = v.player_found;
    conn_leads = v.conn_leads;
    conn_found = v.conn_found;
  }

module _ (m : Manager) (v : IsConsistent m) (token account : String) (conn now : ℕ) where
  unfoldable pub login_state : ℕ → Manager
  login_state player =
      enter_bound (drop_conn (drop_account (record m { legacy = some player }) account) conn)
        (login_session token account conn player now)

  pub login_steps :
      (next : ℕ) (value : Session) (replaced : Option Session) (m' : Manager)
      → m.legacy ≡ some next
      → login m token account conn now ≡ ok (value, replaced, m')
      → (value ≡ login_session token account conn ((next + 1) % 2 ^ 64) now)
        × (m' ≡ login_state ((next + 1) % 2 ^ 64))
  unfolding login login_state
  login_steps next value replaced m' counter h = ground arith

  login_state-IsConsistent :
      (player : ℕ)
      → get token m.by_token ≡ none
      → get player m.by_player_id ≡ none
      → IsConsistent (login_state player)
  unfolding login_state
  login_state-IsConsistent player fresh number =
      let (v1, f1, a1) =
        drop_account-Frees (record m { legacy = some player })
          (counted-IsConsistent m v (some player)) account in
      let m1 = drop_account (record m { legacy = some player }) account in
      let (v2, f2, c2) = drop_conn-Frees m1 v1 conn in
      enter_bound-IsConsistent (drop_conn m1 conn) v2 (login_session token account conn player now)
        refl (f2.tokens token (f1.tokens token fresh)) (f2.accounts account a1)
        (f2.players player (f1.players player number)) c2

  -- In a consistent manager of the deprecated constructor, a login with a token that is not in
  -- use and a number that no player has leaves the maps in agreement, and its session is the one
  -- that its token and its connection lead to.
  pub login-IsConsistent :
      (next : ℕ) (value : Session) (replaced : Option Session) (m' : Manager)
      → m.legacy ≡ some next
      → get token m.by_token ≡ none
      → get ((next + 1) % 2 ^ 64) m.by_player_id ≡ none
      → login m token account conn now ≡ ok (value, replaced, m')
      → IsConsistent m'
        × (value ≡ login_session token account conn ((next + 1) % 2 ^ 64) now)
        × (get token m'.by_token ≡ some value)
        × (get conn m'.by_conn_id ≡ some token)
  unfolding login_state enter_bound
  login-IsConsistent next value replaced m' counter fresh number h =
      let player = (next + 1) % 2 ^ 64 in
      let (built, entered) = login_steps next value replaced m' counter h in
      let cleared = drop_conn (drop_account (record m { legacy = some player }) account) conn in
      let s = login_session token account conn player now in
      (
        subst IsConsistent (sym entered) (login_state-IsConsistent player fresh number),
        built,
        ground (arith, built, entered, get-put token token s cleared.by_token, eq_iff token token),
        ground (arith, entered, get-put conn conn token cleared.by_conn_id),
      )
