-- ===== src/Session/History.antt =====
-- Whatever is called on a new manager, its maps agree.
use ginx.Prelude.{
  ℕ, ◌+◌, ◌^◌, ◌<◌, String, ◌≡◌, sym, subst, ◌⊎◌, ◌↔◌, true, false, inl, inr, Option-cases, nat_eq,
  Option, none, some, arith, string_eq, ok, ℤ,
}
use ginx.GoMap.{get}
use ginx.Session.{
  Session, Manager, AccountPolicy, new_manager, issue, logout_by_token, logout_by_conn_id, bind,
  touch, remove_expired, get_by_conn_id, expired,
}
use ginx.Session.Login.{login}
use ginx.Session.Invariant.{IsConsistent, new_manager-IsConsistent}
use ginx.Session.Issuing.{issue-IsConsistent}
use ginx.Session.Binding.{bind-Binds, bind-IsConsistent, touch-IsConsistent}
use ginx.Session.Removal.{
  logout_by_token-IsConsistent, logout_by_conn_id-removes, remove_expired-exact,
}
use ginx.Session.Legacy.{login-IsConsistent}
use ginx.Session.Numbering.{
  IsCounted, Shrinks-IsCounted, remove_expired-Shrinks, issue-IsCounted, login-IsCounted,
  IsCounted-number_free, touch-Shrinks, logout_by_token-Shrinks, logout_by_conn_id-Shrinks,
}

-- A call that changes the manager. A token from the random source is one that the manager does not
-- have, and the counter has not reached the end of its 64 bits.
pub data Step (m m' : Manager) : Type 0 where
  issued :
      (token account : String) (player : ℕ) (ttl : ℤ) (now : ℕ) (value : Session)
      (replaced : Option Session)
      → get token m.by_token ≡ none
      → issue m token account player ttl now ≡ ok (value, replaced, m')
      → Step m m'
  bound_to :
      (token : String) (conn now later : ℕ) (value : Session)
      → bind m token conn now later ≡ ok (value, m')
      → Step m m'
  touched : (token : String) (now later : ℕ) → touch m token now later ≡ ok m' → Step m m'
  logged_out : (token : String) (s : Session) → logout_by_token m token ≡ ok (s, m') → Step m m'
  dropped : (conn : ℕ) (r : Option Session) → logout_by_conn_id m conn ≡ ok (r, m') → Step m m'
  swept : (now : ℕ) → m' ≡ (remove_expired m now).1 → Step m m'
  logged_in :
      (token account : String) (conn now next : ℕ) (value : Session) (replaced : Option Session)
      → get token m.by_token ≡ none
      → m.legacy ≡ some next
      → next + 1 < 2 ^ 64
      → login m token account conn now ≡ ok (value, replaced, m')
      → Step m m'

pub data Reach (m : Manager) : Manager → Type 0 where
  here : Reach m m
  next : {a b : Manager} → Reach m a → Step a b → Reach m b

Step-IsConsistent : (m m' : Manager) → Step m m' → IsConsistent m → IsCounted m → IsConsistent m'
Step-IsConsistent m m' (issued token account player ttl now value r fresh h) v c =
    (issue-IsConsistent m v token account player ttl now value r m' fresh h).0
Step-IsConsistent m m' (bound_to token conn now later value h) v c =
    bind-IsConsistent m v token conn now later value m' h
Step-IsConsistent m m' (touched token now later h) v c = touch-IsConsistent m v token now later m' h
Step-IsConsistent m m' (logged_out token s h) v c = logout_by_token-IsConsistent m v token s m' h
Step-IsConsistent m m' (dropped conn r h) v c = (logout_by_conn_id-removes m v conn r m' h).0
Step-IsConsistent m m' (swept now e) v c =
    subst IsConsistent (sym e) (remove_expired-exact m now v).0
Step-IsConsistent m m' (logged_in token account conn now n value r fresh counter room h) v c =
    (login-IsConsistent m v token account conn now n value r m' counter fresh
      (IsCounted-number_free m n c counter room) h).0

Step-IsCounted : (m m' : Manager) → Step m m' → IsConsistent m → IsCounted m → IsCounted m'
Step-IsCounted m m' (issued token account player ttl now value r fresh h) v c =
    issue-IsCounted m token account player ttl now value r m' v c h
Step-IsCounted m m' (bound_to token conn now later value h) v c =
    let b = bind-Binds m token conn now later value m' h in
    Shrinks-IsCounted
      (record {
        same_counter = ground (arith, b.state);
        players = λ p t e. ground (arith, b.state, e);
      })
      c
Step-IsCounted m m' (touched token now later h) v c =
    Shrinks-IsCounted (touch-Shrinks m m' token now later h) c
Step-IsCounted m m' (logged_out token s h) v c =
    Shrinks-IsCounted (logout_by_token-Shrinks m m' token s h) c
Step-IsCounted m m' (dropped conn r h) v c =
    Shrinks-IsCounted (logout_by_conn_id-Shrinks m m' conn r h) c
Step-IsCounted m m' (swept now e) v c =
    subst IsCounted (sym e) (Shrinks-IsCounted (remove_expired-Shrinks m now) c)
Step-IsCounted m m' (logged_in token account conn now n value r fresh counter room h) v c =
    login-IsCounted m token account conn now n value r m' v c counter room h

Reach-invariants :
    {m m' : Manager} → Reach m m' → IsConsistent m × IsCounted m → IsConsistent m' × IsCounted m'
Reach-invariants here i = i
Reach-invariants (next r s) i =
    let (v, c) = Reach-invariants r i in (Step-IsConsistent _ _ s v c, Step-IsCounted _ _ s v c)

-- After any calls on a new manager, in which new tokens are not in use yet and the counter does
-- not pass the end of its 64 bits, the maps agree, and no player of a session is above the
-- counter, if it has one.
pub Reach-new_manager :
    (policy : AccountPolicy) (legacy : Option ℕ) (m : Manager)
    → Reach (new_manager policy legacy) m
    → IsConsistent m × IsCounted m
unfolding new_manager get
Reach-new_manager policy legacy m r =
    Reach-invariants r
      (new_manager-IsConsistent policy legacy, record { counted = λ n e p t f. absurd (cc) })

-- After any such calls on a new manager (new tokens not in use, the counter within 64 bits), two
-- tokens whose sessions share an account or a player, or are both bound to one connection, are
-- the same token.
pub Reach-one_session :
    (policy : AccountPolicy) (legacy : Option ℕ) (m : Manager)
    → Reach (new_manager policy legacy) m
    → (t u : String) (r s : Session) → get t m.by_token ≡ some r
    → get u m.by_token ≡ some s
    → ((r.account_id ≡ s.account_id)
        ⊎ (r.player_id ≡ s.player_id)
        ⊎ ((r.bound ≡ true) × (s.bound ≡ true) × (r.conn_id ≡ s.conn_id)))
    → t ≡ u
Reach-one_session policy legacy m reach t u r s e f same =
    let (v, _) = Reach-new_manager policy legacy m reach in
    ground (
      arith,
      e,
      f,
      same,
      v.account_found t r.account_id,
      v.account_found u s.account_id,
      v.player_found t r.player_id,
      v.player_found u s.player_id,
      v.conn_found t r.conn_id,
      v.conn_found u s.conn_id,
    )

-- After any such calls on a new manager (new tokens not in use, the counter within 64 bits), the search
-- by a connection finds a session exactly if that session is held under some token, is bound to this
-- connection and has not run out.
pub Reach-get_by_conn_id :
    (policy : AccountPolicy) (legacy : Option ℕ) (m : Manager)
    → Reach (new_manager policy legacy) m
    → (conn now : ℕ) (value : Session)
    → (get_by_conn_id m conn now ≡ ok value) ↔ (
        (token : String) × (get token m.by_token ≡ some value)
        × (value.bound ≡ true)
        × (value.conn_id ≡ conn)
        × (expired value now ≡ false))
unfolding get_by_conn_id
Reach-get_by_conn_id policy legacy m reach conn now value = (
  λ h. elim (Option-cases (get conn m.by_conn_id)) [
    | inl n ↦ absurd (ground (arith, h, n))
    | inr (token, e) ↦ elim (Option-cases (get token m.by_token)) [
      | inl n ↦ absurd (ground (arith, h, e, n))
      | inr (s, f) ↦
          let same : s ≡ value = ground (arith, h, e, f) in
          (
            token,
            ground (arith, f, same),
            ground (arith, h, e, f, v.conn_leads conn token e),
            ground (arith, h, e, f, v.conn_leads conn token e),
            ground (arith, h, e, f),
          )
    ]
  ],
  λ (token, e, b, c, live). ground (arith, e, b, c, live, v.conn_found token conn),
)
  where
    v : IsConsistent m
    v = (Reach-new_manager policy legacy m reach).0
