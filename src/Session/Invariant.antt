-- ===== src/Session/Invariant.antt =====
-- The four maps of a manager describe the same sessions.
use ginx.Prelude.{
  ℕ, String, ◌≡◌, inl, inr, ◌&&◌, Option, none, some, arith, if◌then◌else◌, ◌==◌, nat_eq, string_eq,
  Option-cases,
}
use ginx.GoMap.{GoMap, get, put, IsUnique}
use ginx.GoMap.Laws.{get-put, get-delete, put-IsUnique, delete-IsUnique}
use text.Mathlib.TextEquality.{eq_iff}
use ginx.Session.{
  Session, Manager, AccountPolicy, new_manager, remove_locked, remove_session, conns_without,
}

abbrev pub account_of : Option Session → Option String
account_of none = none
account_of (some s) = some s.account_id

abbrev pub player_of : Option Session → Option ℕ
player_of none = none
player_of (some s) = some s.player_id

-- The connection of a session that is bound.
abbrev pub conn_of : Option Session → Option ℕ
conn_of none = none
conn_of (some s) = if s.bound then some s.conn_id else none

-- A session stands under its own token, and each account, player and connection leads to the one
-- session that has it.
pub record IsConsistent (m : Manager) : Type 0 where
  pub unique : IsUnique m.by_token
  pub keyed : (t : String) (s : Session) → get t m.by_token ≡ some s → s.token ≡ t
  pub account_leads :
      (a t : String) → get a m.by_account_id ≡ some t → account_of (get t m.by_token) ≡ some a
  pub account_found :
      (t a : String) → account_of (get t m.by_token) ≡ some a → get a m.by_account_id ≡ some t
  pub player_leads :
      (p : ℕ) (t : String) → get p m.by_player_id ≡ some t → player_of (get t m.by_token) ≡ some p
  pub player_found :
      (t : String) (p : ℕ) → player_of (get t m.by_token) ≡ some p → get p m.by_player_id ≡ some t
  pub conn_leads :
      (c : ℕ) (t : String) → get c m.by_conn_id ≡ some t → conn_of (get t m.by_token) ≡ some c
  pub conn_found :
      (t : String) (c : ℕ) → conn_of (get t m.by_token) ≡ some c → get c m.by_conn_id ≡ some t

pub new_manager-IsConsistent :
    (policy : AccountPolicy) (legacy : Option ℕ) → IsConsistent (new_manager policy legacy)
unfolding new_manager get
new_manager-IsConsistent policy legacy = record {
  unique = tt;
  keyed = λ t s e. cc;
  account_leads = λ a t e. cc;
  account_found = λ t a e. cc;
  player_leads = λ p t e. cc;
  player_found = λ t p e. cc;
  conn_leads = λ c t e. cc;
  conn_found = λ t c e. cc;
}

module _ (m : Manager) (v : IsConsistent m) (token : String) where
  -- In a consistent manager a bound session has its connection's entry, so the entry goes.
  get-conns_without :
      (s : Session) (c : ℕ)
      → get token m.by_token ≡ some s
      → get c (conns_without token s m.by_conn_id)
        ≡ (if s.bound && s.conn_id == c then none else get c m.by_conn_id)
  unfolding conns_without
  get-conns_without s c e = ground (
    arith,
    e,
    v.conn_found token s.conn_id,
    get-delete c s.conn_id m.by_conn_id,
    eq_iff token token,
  )

  remove_session-IsConsistent :
      (s : Session) → get token m.by_token ≡ some s → IsConsistent (remove_session m token s)
  unfolding remove_session
  remove_session-IsConsistent s e = record {
    unique = delete-IsUnique token m.by_token v.unique;
    keyed = λ t r g. ground (arith, g, get-delete t token m.by_token, v.keyed t r);
    account_leads = λ a t g. ground (
      arith,
      g,
      e,
      get-delete a s.account_id m.by_account_id,
      get-delete t token m.by_token,
      v.account_leads a t,
      eq_iff token t,
      eq_iff s.account_id a,
    );
    account_found = λ t a g. ground (
      arith,
      g,
      e,
      get-delete a s.account_id m.by_account_id,
      get-delete t token m.by_token,
      v.account_found t a,
      v.account_found token s.account_id,
      eq_iff token t,
      eq_iff s.account_id a,
    );
    player_leads = λ p t g. ground (
      arith,
      g,
      e,
      get-delete p s.player_id m.by_player_id,
      get-delete t token m.by_token,
      v.player_leads p t,
      eq_iff token t,
    );
    player_found = λ t p g. ground (
      arith,
      g,
      e,
      get-delete p s.player_id m.by_player_id,
      get-delete t token m.by_token,
      v.player_found t p,
      v.player_found token s.player_id,
      eq_iff token t,
    );
    conn_leads = λ c t g. ground (
      arith,
      g,
      e,
      get-conns_without s c e,
      get-delete t token m.by_token,
      v.conn_leads c t,
      eq_iff token t,
    );
    conn_found = λ t c g. ground (
      arith,
      g,
      e,
      get-conns_without s c e,
      get-delete t token m.by_token,
      v.conn_found t c,
      v.conn_found token s.conn_id,
      eq_iff token t,
    );
  }

  -- Taking a session out keeps the maps in agreement, whether the token is there or not.
  pub remove_locked-IsConsistent : IsConsistent (remove_locked m token)
  unfolding remove_locked
  remove_locked-IsConsistent = elim (Option-cases (get token m.by_token)) [
    | inl e ↦ rw (e, remove_locked) v
    | inr (s, e) ↦ rw (e, remove_locked) (remove_session-IsConsistent s e)
  ]

  -- What is left is every other session.
  pub get-remove_locked :
      (t : String)
      → get t (remove_locked m token).by_token ≡ (if token == t then none else get t m.by_token)
  unfolding remove_locked
  get-remove_locked t = ground (arith, get-delete t token m.by_token, eq_iff token t)

module _ (m : Manager) (v : IsConsistent m) (value : Session) where
  -- A session enters where its token, account and player are free, with a connection map that
  -- agrees with it.
  pub insert-IsConsistent :
      (conns : GoMap ℕ String) (legacy : Option ℕ)
      → get value.token m.by_token ≡ none
      → get value.account_id m.by_account_id ≡ none
      → get value.player_id m.by_player_id ≡ none
      → ((c : ℕ) (t : String)
          → get c conns ≡ some t
          → conn_of (if value.token == t then some value else get t m.by_token) ≡ some c)
      → ((t : String) (c : ℕ)
          → conn_of (if value.token == t then some value else get t m.by_token) ≡ some c
          → get c conns ≡ some t)
      → IsConsistent (record m {
        by_token = put value.token value m.by_token;
        by_account_id = put value.account_id value.token m.by_account_id;
        by_player_id = put value.player_id value.token m.by_player_id;
        by_conn_id = conns;
        legacy = legacy;
      })
  insert-IsConsistent conns legacy t0 a0 p0 leads found =
      let token = value.token in
      record {
        unique = put-IsUnique token value m.by_token v.unique;
        keyed = λ t s g.
            ground (arith, g, get-put t token value m.by_token, v.keyed t s, eq_iff token t);
        account_leads = λ a t g. ground (
          arith,
          g,
          get-put a value.account_id token m.by_account_id,
          get-put t token value m.by_token,
          v.account_leads a t,
          eq_iff token t,
          eq_iff value.account_id a,
        );
        account_found = λ t a g. ground (
          arith,
          g,
          get-put a value.account_id token m.by_account_id,
          get-put t token value m.by_token,
          v.account_found t a,
          eq_iff token t,
          eq_iff value.account_id a,
        );
        player_leads = λ p t g. ground (
          arith,
          g,
          get-put p value.player_id token m.by_player_id,
          get-put t token value m.by_token,
          v.player_leads p t,
          eq_iff token t,
        );
        player_found = λ t p g. ground (
          arith,
          g,
          get-put p value.player_id token m.by_player_id,
          get-put t token value m.by_token,
          v.player_found t p,
          eq_iff token t,
        );
        conn_leads = λ c t g. rw (get-put t token value m.by_token) (leads c t g);
        conn_found = λ t c g. found t c (rw (get-put t token value m.by_token) at g);
      }
