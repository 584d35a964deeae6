-- ===== src/Session/Examples.antt =====
-- One account logs in, binds and runs out; the theorems on the way.
use ginx.Prelude.{
  ℕ, ◌↔◌, false, String, ◌≡◌, refl, inl, true, none, some, [], ◌∷◌, if◌then◌else◌, ◌==◌, nat_eq,
  string_eq, filter_by, ok, pos,
}
use ginx.GoMap.{get, put, delete}
use ginx.Session.{
  Session, Manager, reject_existing, replace_existing, new_manager, issue, issued_session,
  logout_by_conn_id, bind, remove_expired, remove_locked, enter, get_by_conn_id, expired,
  replace_account,
}
use ginx.Session.Login.{login, login_session, drop_account, drop_conn, enter_bound}
use ginx.Session.Invariant.{IsConsistent}
use ginx.Session.Issuing.{issue-IsConsistent, account_session, leads_to}
use ginx.Session.Removal.{remove_expired-exact, values, runs_out}
use ginx.Session.Numbering.{IsCounted}
use ginx.Session.History.{
  Reach, here, next, issued, bound_to, Reach-new_manager, Reach-one_session, Reach-get_by_conn_id,
}

abbrev blank : Manager
blank = record {
  legacy = none;
  account_policy = reject_existing;
  by_token = [];
  by_account_id = [];
  by_player_id = [];
  by_conn_id = [];
}

abbrev alice : Session
alice = issued_session "t1" "alice" 7 100 10

abbrev alice_in : Manager
alice_in = record blank {
  by_token = ("t1", alice) ∷ [];
  by_account_id = ("alice", "t1") ∷ [];
  by_player_id = (7, "t1") ∷ [];
}

issue-alice : issue blank "t1" "alice" 7 (pos 100) 10 ≡ ok (alice, none, alice_in)
unfolding issue replace_account enter get put
issue-alice = refl

abbrev alice_bound : Session
alice_bound = record alice { conn_id = 0; bound = true; updated_at = 12 }

abbrev alice_on : Manager
alice_on = record alice_in { by_token = ("t1", alice_bound) ∷ []; by_conn_id = (0, "t1") ∷ [] }

bind-alice : bind alice_in "t1" 0 11 12 ≡ ok (alice_bound, alice_on)
unfolding bind get put
bind-alice = refl

alice_reached : Reach (new_manager reject_existing none) alice_on
unfolding new_manager get
alice_reached =
    next (next here (issued "t1" "alice" 7 (pos 100) 10 alice none refl issue-alice))
      (bound_to "t1" 0 11 12 alice_bound bind-alice)

Reach-new_manager_example : IsConsistent alice_on × IsCounted alice_on
Reach-new_manager_example = Reach-new_manager reject_existing none alice_on alice_reached

alice_on-IsConsistent : IsConsistent alice_on
alice_on-IsConsistent = (Reach-new_manager reject_existing none alice_on alice_reached).0

Reach-one_session_example : ◌≡◌ {A = String} "t1" "t1"
unfolding get
Reach-one_session_example =
    Reach-one_session reject_existing none alice_on alice_reached "t1" "t1" alice_bound alice_bound
      refl refl (inl refl)

blank-IsConsistent : IsConsistent blank
unfolding new_manager
blank-IsConsistent = (Reach-new_manager reject_existing none blank here).0

alice_in-IsConsistent : IsConsistent alice_in
unfolding new_manager get
alice_in-IsConsistent =
    (Reach-new_manager reject_existing none alice_in
      (next here (issued "t1" "alice" 7 (pos 100) 10 alice none refl issue-alice))).0

issue-IsConsistent_example :
    IsConsistent alice_in
    × (alice ≡ issued_session "t1" "alice" 7 100 10)
    × (none ≡ account_session blank "alice")
    × ((t : String)
        → get t alice_in.by_token ≡ (
            if "t1" == t
            then some alice
            else (if leads_to (get "alice" blank.by_account_id) t
                then none
                else get t blank.by_token)))
unfolding get
issue-IsConsistent_example =
    issue-IsConsistent blank blank-IsConsistent "t1" "alice" 7 (pos 100) 10 alice none alice_in refl
      issue-alice

Reach-get_by_conn_id_example : (get_by_conn_id alice_on 0 50 ≡ ok alice_bound) ↔ (
    (token : String) × (get token alice_on.by_token ≡ some alice_bound)
    × (true ≡ true)
    × (◌≡◌ {A = ℕ} 0 0)
    × (expired alice_bound 50 ≡ false))
Reach-get_by_conn_id_example =
    Reach-get_by_conn_id reject_existing none alice_on alice_reached 0 50 alice_bound

-- A second account, not bound yet.
abbrev carol : Session
carol = issued_session "t2" "carol" 8 100 10

abbrev both_in : Manager
both_in = record alice_in {
  by_token = ("t1", alice) ∷ ("t2", carol) ∷ [];
  by_account_id = ("alice", "t1") ∷ ("carol", "t2") ∷ [];
  by_player_id = (7, "t1") ∷ (8, "t2") ∷ [];
}

abbrev both_on : Manager
both_on = record both_in {
  by_token = ("t1", alice_bound) ∷ ("t2", carol) ∷ [];
  by_conn_id = (0, "t1") ∷ [];
}

bind-both : bind both_in "t1" 0 11 12 ≡ ok (alice_bound, both_on)
unfolding bind get put
bind-both = refl

logout_run : logout_by_conn_id alice_on 0 ≡ ok (some alice_bound, blank)
unfolding logout_by_conn_id remove_locked get delete
logout_run = refl

sweep_run : remove_expired alice_on 110 ≡ (alice_bound ∷ [], blank)
unfolding remove_expired remove_locked get delete
sweep_run = refl

remove_expired-exact_example :
    IsConsistent (remove_expired alice_on 110).1
    × ((remove_expired alice_on 110).0 ≡ filter_by (λ s. expired s 110) (values alice_on.by_token))
    × ((t : String)
        → get t (remove_expired alice_on 110).1.by_token
          ≡ (if runs_out (get t alice_on.by_token) 110 then none else get t alice_on.by_token))
remove_expired-exact_example = remove_expired-exact alice_on 110 alice_on-IsConsistent

abbrev old_style : Manager
old_style = record blank { legacy = some 41; account_policy = replace_existing }

abbrev bob : Session
bob = login_session "t9" "bob" 3 42 5

abbrev bob_on : Manager
bob_on = record old_style {
  legacy = some 42;
  by_token = ("t9", bob) ∷ [];
  by_account_id = ("bob", "t9") ∷ [];
  by_player_id = (42, "t9") ∷ [];
  by_conn_id = (3, "t9") ∷ [];
}

login-bob : login old_style "t9" "bob" 3 5 ≡ ok (bob, none, bob_on)
unfolding login drop_account drop_conn enter_bound get put
login-bob = refl

old_style-IsConsistent : IsConsistent old_style
unfolding new_manager
old_style-IsConsistent = (Reach-new_manager replace_existing (some 41) old_style here).0
