-- ===== src/Session/Login.antt =====
-- session/legacy.go: the login that numbers the players by itself.
use ginx.Prelude.{
  ℕ, ◌+◌, ◌%◌, ◌^◌, String, true, Option, none, some, ◌==◌, nat_eq, string_eq, Result, ok, ◌>>=◌,
  ◌>>◌, reject, or_fail,
}
use ginx.GoMap.{get, put}
use ginx.Session.{Session, Manager, SessionError, remove_locked, no_legacy, empty_account}

-- The account's session goes, and then the connection's.
unfoldable pub drop_account : Manager → String → Manager
drop_account m account_id = elim (get account_id m.by_account_id) [
  | none ↦ m
  | some old ↦ remove_locked m old
]

unfoldable pub drop_conn : Manager → ℕ → Manager
drop_conn m conn_id = elim (get conn_id m.by_conn_id) [ none ↦ m | some old ↦ remove_locked m old ]

-- `Login`: the counter gives the player, and what the account and the connection had
-- before is dropped.
abbrev pub login_session : String → String → ℕ → ℕ → ℕ → Session
login_session token account_id conn_id player_id now = record {
  token = token;
  account_id = account_id;
  player_id = player_id;
  conn_id = conn_id;
  bound = true;
  expires_at = 0;
  created_at = now;
  updated_at = now;
}

-- The maps with a session that is bound.
unfoldable pub enter_bound : Manager → Session → Manager
enter_bound m session = record m {
  by_token = put session.token session m.by_token;
  by_account_id = put session.account_id session.token m.by_account_id;
  by_player_id = put session.player_id session.token m.by_player_id;
  by_conn_id = put session.conn_id session.token m.by_conn_id;
}

login_at :
    Manager → String → String → ℕ → ℕ → ℕ → Result SessionError (Session × Option Session × Manager)
login_at m token account_id conn_id player_id now =
    let session = login_session token account_id conn_id player_id now in
    let replaced : Option Session = elim (get account_id m.by_account_id) [
      | none ↦ none
      | some old ↦ get old m.by_token
    ] in
    ok (session, replaced, enter_bound (drop_conn (drop_account m account_id) conn_id) session)

unfoldable pub login :
    Manager → String → String → ℕ → ℕ → Result SessionError (Session × Option Session × Manager)
unfolding login_at
login m token account_id conn_id now = do
  next ← or_fail m.legacy no_legacy
  reject (account_id == "") empty_account
  let player_id = (next + 1) % 2 ^ 64
  login_at (record m { legacy = some player_id }) token account_id conn_id player_id now
