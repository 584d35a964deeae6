-- ===== src/Session/Removal.antt =====
-- LogoutByToken, LogoutByConnID and RemoveExpired.
use ginx.Prelude.{
  ℕ, String, ◌≡◌, refl, sym, subst, ◌≢◌, inl, inr, Bool, true, false, Option, none, some, List, [],
  ◌∷◌, ◌++◌, arith, if◌then◌else◌, ◌==◌, nat_eq, string_eq, Bool-cases, Option-cases, filter_by, ok,
  err,
}
use ginx.GoMap.{GoMap, get, IsUnique}
use mathlib.Core.List.{append-nil, append_assoc}
use text.Mathlib.TextEquality.{eq_iff}
use ginx.Session.{
  Session, Manager, expired, logout_by_token, logout_by_conn_id, remove_locked, remove_expired,
  expire_loop, get_by_conn_id, get_by_player_id, nil_dereference,
}
use ginx.Session.Invariant.{IsConsistent, remove_locked-IsConsistent, get-remove_locked}

module _ (m : Manager) (v : IsConsistent m) where
  pub logout_by_token-IsConsistent :
      (token : String) (s : Session) (m' : Manager)
      → logout_by_token m token ≡ ok (s, m')
      → IsConsistent m'
  unfolding logout_by_token
  logout_by_token-IsConsistent token s m' h =
      subst IsConsistent (ground (arith, h)) (remove_locked-IsConsistent m v token)

  -- In a consistent manager, a logout by connection that succeeds leaves the maps in agreement,
  -- hands back a session that was bound to the connection, and takes out that session alone.
  pub logout_by_conn_id-removes :
      (conn : ℕ) (r : Option Session) (m' : Manager)
      → logout_by_conn_id m conn ≡ ok (r, m')
      → IsConsistent m'
        × ((token : String) × (s : Session) × (r ≡ some s)
            × (get token m.by_token ≡ some s)
            × (s.bound ≡ true)
            × (s.conn_id ≡ conn)
            × ((t : String) → get t m'.by_token ≡ (if token == t then none else get t m.by_token)))
  unfolding logout_by_conn_id
  logout_by_conn_id-removes conn r m' h = elim (Option-cases (get conn m.by_conn_id)) [
    | inl e ↦ absurd (ground (arith, h, e))
    | inr (token, e) ↦ elim (Option-cases (get token m.by_token)) [
      | inl lost ↦ absurd (ground (arith, lost, v.conn_leads conn token e))
      | inr (s, f) ↦
          let same : m' ≡ remove_locked m token = ground (arith, h, e) in
          (
            subst IsConsistent (sym same) (remove_locked-IsConsistent m v token),
            (
              token,
              s,
              ground (arith, h, e, f),
              f,
              ground (arith, f, v.conn_leads conn token e),
              ground (arith, f, v.conn_leads conn token e),
              λ t. ground (arith, same, get-remove_locked m v token t),
            ),
          )
    ]
  ]

  -- In a consistent manager neither the query by connection nor the one by player dereferences a
  -- nil session.
  pub queries-ne-nil_dereference :
      (conn player now : ℕ)
      → (get_by_conn_id m conn now ≢ err nil_dereference)
        × (get_by_player_id m player now ≢ err nil_dereference)
  unfolding get_by_conn_id get_by_player_id
  queries-ne-nil_dereference conn player now = (
    λ h. elim (Option-cases (get conn m.by_conn_id)) [
      | inl e ↦ ground (arith, h, e)
      | inr (t, e) ↦ ground (arith, h, e, v.conn_leads conn t e)
    ],
    λ h. elim (Option-cases (get player m.by_player_id)) [
      | inl e ↦ ground (arith, h, e)
      | inr (t, e) ↦ ground (arith, h, e, v.player_leads player t e)
    ],
  )

abbrev pub values : GoMap String Session → List Session
values [] = []
values ((t, s) ∷ rest) = s ∷ values rest

abbrev pub runs_out : Option Session → ℕ → Bool
runs_out none now = false
runs_out (some s) now = expired s now

expire_loop-removed :
    (now : ℕ) (rest : GoMap String Session) (m : Manager) (removed : List Session)
    → (expire_loop now rest m removed).0 ≡ removed ++ filter_by (λ s. expired s now) (values rest)
unfolding expire_loop
expire_loop-removed now [] m removed = sym (append-nil removed)
expire_loop-removed now ((t, s) ∷ rest) m removed = elim (Bool-cases (expired s now)) [
  | inl e ↦ ground (
    arith,
    e,
    expire_loop-removed now rest (remove_locked m t) (removed ++ s ∷ []),
    append_assoc removed (s ∷ []) (filter_by (λ x. expired x now) (values rest)),
  )
  | inr e ↦ ground (arith, e, expire_loop-removed now rest m removed)
]

visited-IsConsistent :
    (m : Manager) (t : String)
    → IsConsistent m
    → (out : Bool) → IsConsistent (if out then remove_locked m t else m)
visited-IsConsistent m t v true = remove_locked-IsConsistent m v t
visited-IsConsistent m t v false = v

expire_loop-IsConsistent :
    (now : ℕ) (rest : GoMap String Session) (m : Manager) (removed : List Session)
    → IsConsistent m
    → IsConsistent (expire_loop now rest m removed).1
unfolding expire_loop
expire_loop-IsConsistent now [] m removed v = v
expire_loop-IsConsistent now ((t, s) ∷ rest) m removed v =
    expire_loop-IsConsistent now rest _ _ (visited-IsConsistent m t v (expired s now))

expire_loop-get :
    (now : ℕ) (rest : GoMap String Session) (m : Manager) (removed : List Session)
    → IsUnique rest
    → IsConsistent m
    → (t : String)
    → get t (expire_loop now rest m removed).1.by_token
      ≡ (if runs_out (get t rest) now then none else get t m.by_token)
unfolding expire_loop get
expire_loop-get now [] m removed u v t = refl
expire_loop-get now ((k, s) ∷ rest) m removed u v t = elim (Bool-cases (expired s now)) [
  | inl e ↦ ground (
    arith,
    e,
    expire_loop-get now rest (remove_locked m k) (removed ++ s ∷ []) u.1
        (remove_locked-IsConsistent m v k) t,
    get-remove_locked m v k t,
    u.0,
    eq_iff k t,
  )
  | inr e ↦ ground (arith, e, expire_loop-get now rest m removed u.1 v t, u.0, eq_iff k t)
]

-- In a consistent manager, the sweep hands back exactly the sessions that have run out, takes
-- out these alone, and leaves the maps in agreement.
pub remove_expired-exact :
    (m : Manager) (now : ℕ)
    → IsConsistent m
    → IsConsistent (remove_expired m now).1
      × ((remove_expired m now).0 ≡ filter_by (λ s. expired s now) (values m.by_token))
      × ((t : String)
          → get t (remove_expired m now).1.by_token
            ≡ (if runs_out (get t m.by_token) now then none else get t m.by_token))
unfolding remove_expired
remove_expired-exact m now v = (
  expire_loop-IsConsistent now m.by_token m [] v,
  expire_loop-removed now m.by_token m [],
  expire_loop-get now m.by_token m [] v.unique v,
)
