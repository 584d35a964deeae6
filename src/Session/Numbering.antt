-- ===== src/Session/Numbering.antt =====
-- The counter of the deprecated constructor stays at or above every player that is logged in.
use ginx.Prelude.{
  ℕ, ◌+◌, ◌%◌, ◌^◌, ◌≤◌, ◌<◌, String, ◌≡◌, refl, sym, subst, ◌∙◌, inl, inr, Bool, true, false,
  Option, none, some, List, [], ◌∷◌, arith, if◌then◌else◌, nat_eq, string_eq, Option-cases, ok, ℤ,
  to_nat,
}
use ginx.GoMap.{GoMap, get}
use ginx.GoMap.Laws.{get-put, get-delete}
use ginx.Session.{
  Session, Manager, expired, remove_locked, enter, issue, issued_session, replace_account,
  logout_by_token, logout_by_conn_id, touch, remove_expired, expire_loop,
}
use ginx.Session.Login.{login, drop_account, drop_conn, enter_bound}
use ginx.Session.Invariant.{IsConsistent}
use ginx.Session.Issuing.{issue_steps}
use ginx.Session.Legacy.{login_steps, login_state}

pub record IsCounted (m : Manager) : Type 0 where
  pub counted :
      (next : ℕ)
      → m.legacy ≡ some next
      → (p : ℕ) (t : String) → get p m.by_player_id ≡ some t
      → p ≤ next

-- No player comes in, and the counter stands still.
pub record Shrinks (m m' : Manager) : Type 0 where
  pub same_counter : m'.legacy ≡ m.legacy
  pub players :
      (p : ℕ) (t : String) → get p m'.by_player_id ≡ some t → get p m.by_player_id ≡ some t

pub Shrinks-refl : (m : Manager) → Shrinks m m
Shrinks-refl m = record { same_counter = refl; players = λ p t e. e }

Shrinks-trans : {a b c : Manager} → Shrinks a b → Shrinks b c → Shrinks a c
Shrinks-trans s t = record {
  same_counter = t.same_counter ∙ s.same_counter;
  players = λ p x e. s.players p x (t.players p x e);
}

pub Shrinks-IsCounted : {m m' : Manager} → Shrinks m m' → IsCounted m → IsCounted m'
Shrinks-IsCounted s c = record {
  counted = λ next e p t f. c.counted next (sym s.same_counter ∙ e) p t (s.players p t f);
}

pub remove_locked-Shrinks : (m : Manager) (token : String) → Shrinks m (remove_locked m token)
unfolding remove_locked
remove_locked-Shrinks m token = elim (Option-cases (get token m.by_token)) [
  | inl e ↦ record { same_counter = ground (arith, e); players = λ p t f. ground (arith, e, f) }
  | inr (s, e) ↦ record {
    same_counter = ground (arith, e);
    players = λ p t f. ground (arith, e, f, get-delete p s.player_id m.by_player_id);
  }
]

visited-Shrinks :
    (m : Manager) (t : String) (out : Bool) → Shrinks m (if out then remove_locked m t else m)
visited-Shrinks m t true = remove_locked-Shrinks m t
visited-Shrinks m t false = Shrinks-refl m

expire_loop-Shrinks :
    (now : ℕ) (rest : GoMap String Session) (m : Manager) (removed : List Session)
    → Shrinks m (expire_loop now rest m removed).1
unfolding expire_loop
expire_loop-Shrinks now [] m removed = Shrinks-refl m
expire_loop-Shrinks now ((t, s) ∷ rest) m removed =
    Shrinks-trans (visited-Shrinks m t (expired s now)) (expire_loop-Shrinks now rest _ _)

pub remove_expired-Shrinks : (m : Manager) (now : ℕ) → Shrinks m (remove_expired m now).1
unfolding remove_expired
remove_expired-Shrinks m now = expire_loop-Shrinks now m.by_token m []

drop_account-Shrinks : (m : Manager) (account : String) → Shrinks m (drop_account m account)
unfolding drop_account
drop_account-Shrinks m account = elim (Option-cases (get account m.by_account_id)) [
  | inl e ↦ rw (e, drop_account) (Shrinks-refl m)
  | inr (t, e) ↦ rw (e, drop_account) (remove_locked-Shrinks m t)
]

drop_conn-Shrinks : (m : Manager) (conn : ℕ) → Shrinks m (drop_conn m conn)
unfolding drop_conn
drop_conn-Shrinks m conn = elim (Option-cases (get conn m.by_conn_id)) [
  | inl e ↦ rw (e, drop_conn) (Shrinks-refl m)
  | inr (t, e) ↦ rw (e, drop_conn) (remove_locked-Shrinks m t)
]

replace_account-Shrinks :
    (m : Manager) (account : String) (now : ℕ) (r : Option Session) (m' : Manager)
    → replace_account m account now ≡ ok (r, m')
    → Shrinks m m'
unfolding replace_account
replace_account-Shrinks m account now r m' h = elim (Option-cases (get account m.by_account_id)) [
  | inl e ↦ subst (Shrinks m) (ground (arith, h, e)) (Shrinks-refl m)
  | inr (old, e) ↦ subst (Shrinks m) (ground (arith, h, e)) (remove_locked-Shrinks m old)
]

enter-IsCounted : (m : Manager) → IsCounted m → (value : Session) → IsCounted (enter m value)
unfolding enter
enter-IsCounted m c value = record {
  counted = λ next e p t f. elim (Option-cases m.legacy) [
    | inl l ↦ absurd (ground (arith, e, l))
    | inr (current, l) ↦ ground (
      arith,
      e,
      f,
      l,
      get-put p value.player_id value.token m.by_player_id,
      c.counted current l p t,
    )
  ];
}

pub issue-IsCounted :
    (m : Manager) (token account : String) (player : ℕ) (ttl : ℤ) (now : ℕ) (value : Session)
    (replaced : Option Session) (m' : Manager)
    → IsConsistent m
    → IsCounted m
    → issue m token account player ttl now ≡ ok (value, replaced, m')
    → IsCounted m'
issue-IsCounted m token account player ttl now value replaced m' v c h =
    let (built, guarded, (cleared, replacing, entered)) =
      issue_steps m v token account player ttl now value replaced m' h in
    let s = replace_account-Shrinks m account now replaced cleared replacing in
    subst IsCounted (sym entered) (
      enter-IsCounted cleared (Shrinks-IsCounted s c)
        (issued_session token account player (to_nat ttl) now))

pub login-IsCounted :
    (m : Manager) (token account : String) (conn now next : ℕ) (value : Session)
    (replaced : Option Session) (m' : Manager)
    → IsConsistent m
    → IsCounted m
    → m.legacy ≡ some next
    → next + 1 < 2 ^ 64
    → login m token account conn now ≡ ok (value, replaced, m')
    → IsCounted m'
unfolding login_state enter_bound
login-IsCounted m token account conn now next value replaced m' v c counter room h =
    let player = (next + 1) % 2 ^ 64 in
    let (built, entered) =
      login_steps m v token account conn now next value replaced m' counter h in
    let start : Manager = record m { legacy = some player } in
    let mid = drop_account start account in
    let s = Shrinks-trans (drop_account-Shrinks start account) (drop_conn-Shrinks mid conn) in
    let cleared = drop_conn mid conn in
    subst IsCounted (sym entered) (record {
      counted = λ n e p t f. ground (
        arith,
        e,
        f,
        room,
        s.same_counter,
        get-put p player token cleared.by_player_id,
        s.players p t,
        c.counted next counter p t,
      );
    })

-- So the next number is nobody's.
pub IsCounted-number_free :
    (m : Manager) (next : ℕ)
    → IsCounted m
    → m.legacy ≡ some next
    → next + 1 < 2 ^ 64
    → get ((next + 1) % 2 ^ 64) m.by_player_id ≡ none
IsCounted-number_free m next c counter room =
    elim (Option-cases (get ((next + 1) % 2 ^ 64) m.by_player_id)) [
      | inl e ↦ e
      | inr (t, e) ↦ absurd (omega (arith, c.counted next counter ((next + 1) % 2 ^ 64) t e))
    ]

module _ (m m' : Manager) where
  pub touch-Shrinks :
      (token : String) (now later : ℕ) → touch m token now later ≡ ok m' → Shrinks m m'
  unfolding touch
  touch-Shrinks token now later h = record {
    same_counter = ground (arith, h);
    players = λ p t e. ground (arith, h, e);
  }

  pub logout_by_token-Shrinks :
      (token : String) (s : Session) → logout_by_token m token ≡ ok (s, m') → Shrinks m m'
  unfolding logout_by_token
  logout_by_token-Shrinks token s h =
      subst (Shrinks m) (ground (arith, h)) (remove_locked-Shrinks m token)

  pub logout_by_conn_id-Shrinks :
      (conn : ℕ) (r : Option Session) → logout_by_conn_id m conn ≡ ok (r, m') → Shrinks m m'
  unfolding logout_by_conn_id
  logout_by_conn_id-Shrinks conn r h = elim (Option-cases (get conn m.by_conn_id)) [
    | inl e ↦ absurd (ground (arith, h, e))
    | inr (token, e) ↦ subst (Shrinks m) (ground (arith, h, e)) (remove_locked-Shrinks m token)
  ]
