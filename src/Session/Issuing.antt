-- ===== src/Session/Issuing.antt =====
-- Issue: a new session in place of the account's old one.
use ginx.Prelude.{
  ℕ, String, ◌≡◌, refl, sym, subst, ◌≢◌, inl, inr, Bool, false, Option, none, some, arith,
  if◌then◌else◌, ◌==◌, nat_eq, string_eq, Option-cases, ok, err, Result-cases, ℤ, to_nat,
}
use ginx.GoMap.{get}
use ginx.GoMap.Laws.{get-put, get-delete}
use text.Mathlib.TextEquality.{eq_iff}
use ginx.Session.{
  Session, Manager, reject_existing, expired, remove_locked, issue, enter, issued_session,
  replace_account, player_guard, nil_dereference,
}
use ginx.Session.Invariant.{
  IsConsistent, remove_locked-IsConsistent, get-remove_locked, insert-IsConsistent,
}

-- The session that an account has.
abbrev pub account_session : Manager → String → Option Session
account_session m account = elim (get account m.by_account_id) [
  | none ↦ none
  | some t ↦ get t m.by_token
]

abbrev pub leads_to : Option String → String → Bool
leads_to none t = false
leads_to (some u) t = u == t

module _ (m : Manager) (v : IsConsistent m) (value : Session) where
  -- A session that is not bound enters where its token, account and player are free.
  enter-IsConsistent :
      value.bound ≡ false
      → get value.token m.by_token ≡ none
      → get value.account_id m.by_account_id ≡ none
      → get value.player_id m.by_player_id ≡ none
      → IsConsistent (enter m value)
  unfolding enter
  enter-IsConsistent free t0 a0 p0 =
      insert-IsConsistent m v value m.by_conn_id _ t0 a0 p0
        (λ c t g. ground (arith, g, t0, v.conn_leads c t, eq_iff value.token t))
        (λ t c g. ground (arith, g, free, v.conn_found t c, eq_iff value.token t))

module _ (m : Manager) (v : IsConsistent m) (account : String) (player : ℕ) where
  -- The player is nobody's, or the account's own.
  player_guard-ok :
      player_guard m account player ≡ ok tt
      → (t : String) → get player m.by_player_id ≡ some t
      → get account m.by_account_id ≡ some t
  unfolding player_guard
  player_guard-ok h t e = elim (Option-cases (get t m.by_token)) [
    | inl lost ↦ absurd (ground (arith, lost, v.player_leads player t e))
    | inr (s, g) ↦ ground (arith, h, e, g, v.account_found t account, eq_iff s.account_id account)
  ]

  -- What is there before the new session enters.
  pub record Cleared (m' : Manager) : Type 0 where
    pub consistent : IsConsistent m'
    pub account_free : get account m'.by_account_id ≡ none
    pub player_free : get player m'.by_player_id ≡ none
    pub same_policy : m'.account_policy ≡ m.account_policy
    pub others :
        (t : String)
        → get t m'.by_token
          ≡ (if leads_to (get account m.by_account_id) t then none else get t m.by_token)

  module _ (guarded : player_guard m account player ≡ ok tt) where
    nothing-Cleared : get account m.by_account_id ≡ none → Cleared m
    nothing-Cleared e = record {
      consistent = v;
      account_free = e;
      player_free = elim (Option-cases (get player m.by_player_id)) [
        | inl free ↦ free
        | inr (t, g) ↦ absurd (cc (e, player_guard-ok guarded t g))
      ];
      same_policy = refl;
      others = λ t. ground (arith, e);
    }

    removed-Cleared :
        (old : String) (s : Session)
        → get account m.by_account_id ≡ some old
        → get old m.by_token ≡ some s
        → Cleared (remove_locked m old)
    unfolding remove_locked
    removed-Cleared old s e g =
        let owner : s.account_id ≡ account = ground (arith, g, v.account_leads account old e) in
        record {
          consistent = remove_locked-IsConsistent m v old;
          account_free = ground (
            arith,
            g,
            get-delete account s.account_id m.by_account_id,
            eq_iff s.account_id account,
            owner,
          );
          player_free = elim (Option-cases (get player m.by_player_id)) [
            | inl free ↦ ground (arith, free, g, get-delete player s.player_id m.by_player_id)
            | inr (t, f) ↦ ground (
              arith,
              f,
              g,
              e,
              get-delete player s.player_id m.by_player_id,
              player_guard-ok guarded t f,
              v.player_leads player t f,
            )
          ];
          same_policy = ground (arith, g);
          others = λ t. ground (arith, e, get-remove_locked m v old t);
        }

    replace_account-Cleared :
        (now : ℕ) (replaced : Option Session) (m' : Manager)
        → replace_account m account now ≡ ok (replaced, m')
        → Cleared m' × (replaced ≡ account_session m account)
    unfolding replace_account
    replace_account-Cleared now replaced m' h = elim (Option-cases (get account m.by_account_id)) [
      | inl e ↦
          let same : m' ≡ m = ground (arith, h, e) in
          (subst Cleared (sym same) (nothing-Cleared e), ground (arith, h, e))
      | inr (old, e) ↦ elim (Option-cases (get old m.by_token)) [
        | inl lost ↦ absurd (ground (arith, h, e, lost))
        | inr (s, g) ↦
            let same : m' ≡ remove_locked m old = ground (arith, h, e, g) in
            (subst Cleared (sym same) (removed-Cleared old s e g), ground (arith, h, e, g))
      ]
    ]

module _ (m : Manager) (v : IsConsistent m) (token account : String) (player : ℕ) (ttl : ℤ)
    (now : ℕ) where
  abbrev new_session : Session
  new_session = issued_session token account player (to_nat ttl) now

  pub issue_steps :
      (value : Session) (replaced : Option Session) (m' : Manager)
      → issue m token account player ttl now ≡ ok (value, replaced, m')
      → (value ≡ new_session)
        × (player_guard m account player ≡ ok tt)
        × ((cleared : Manager) × (replace_account m account now ≡ ok (replaced, cleared))
            × (m' ≡ enter cleared new_session))
  unfolding issue
  issue_steps value replaced m' h = elim (Result-cases (player_guard m account player)) [
    | inr (x, e) ↦ absurd (ground (arith, h, e))
    | inl (tt, e) ↦ elim (Result-cases (replace_account m account now)) [
      | inr (x, f) ↦ absurd (ground (arith, h, e, f))
      | inl ((r, cleared), f) ↦
          (ground (arith, h, e, f), e, (cleared, ground (arith, h, e, f), ground (arith, h, e, f)))
    ]
  ]

  -- In a consistent manager, a token that is issued under a token that was not in use leaves the
  -- maps in agreement. The caller gets the new session and the one that the account had; the
  -- manager has the new session, not the account's old one, and all others as before.
  pub issue-IsConsistent :
      (value : Session) (replaced : Option Session) (m' : Manager)
      → get token m.by_token ≡ none
      → issue m token account player ttl now ≡ ok (value, replaced, m')
      → IsConsistent m'
        × (value ≡ new_session)
        × (replaced ≡ account_session m account)
        × ((t : String)
            → get t m'.by_token ≡ (
                if token == t
                then some value
                else (if leads_to (get account m.by_account_id) t then none else get t m.by_token)))
  unfolding enter
  issue-IsConsistent value replaced m' fresh h =
      let (built, guarded, (cleared, replacing, entered)) = issue_steps value replaced m' h in
      let (c, old) =
        replace_account-Cleared m v account player guarded now replaced cleared replacing in
      let free : get token cleared.by_token ≡ none = ground (arith, fresh, c.others token) in
      (
        subst IsConsistent (sym entered) (
            enter-IsConsistent cleared c.consistent new_session refl free c.account_free
              c.player_free),
        built,
        old,
        λ t.
            ground
              (arith, built, entered, get-put t token new_session cleared.by_token, c.others t),
      )

  -- In a consistent manager with the rejecting policy, no token is issued while the account's
  -- session has not run out.
  pub issue_rejects_active :
      (old value : Session) (replaced : Option Session) (m' : Manager)
      → m.account_policy ≡ reject_existing
      → account_session m account ≡ some old
      → expired old now ≡ false
      → issue m token account player ttl now ≢ ok (value, replaced, m')
  unfolding replace_account
  issue_rejects_active old value replaced m' policy active live h =
      let (_, _, (cleared, replacing, _)) = issue_steps value replaced m' h in
      elim (Option-cases (get account m.by_account_id)) [
        | inl e ↦ ground (arith, active, e)
        | inr (t, e) ↦ ground (arith, active, e, replacing, policy, live)
      ]

  player_guard-ne-nil : player_guard m account player ≢ err nil_dereference
  unfolding player_guard
  player_guard-ne-nil h = elim (Option-cases (get player m.by_player_id)) [
    | inl e ↦ ground (arith, h, e)
    | inr (t, e) ↦ ground (arith, h, e, v.player_leads player t e)
  ]

  replace_account-ne-nil : replace_account m account now ≢ err nil_dereference
  unfolding replace_account
  replace_account-ne-nil h = elim (Option-cases (get account m.by_account_id)) [
    | inl e ↦ ground (arith, h, e)
    | inr (t, e) ↦ ground (arith, h, e, v.account_leads account t e)
  ]

  -- In a consistent manager `issue` never dereferences a nil session: each token that it follows
  -- has a session.
  pub issue-ne-nil_dereference : issue m token account player ttl now ≢ err nil_dereference
  unfolding issue
  issue-ne-nil_dereference h = ground (arith, h, player_guard-ne-nil, replace_account-ne-nil)
