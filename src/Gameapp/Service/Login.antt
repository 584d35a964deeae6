-- ===== src/Gameapp/Service/Login.antt =====
-- examples/gameapp/service.go: Login. `same_password` is bcrypt.CompareHashAndPassword without an error.
use ginx.Prelude.{
  ℕ, String, Bool, true, not, ◌||◌, Option, none, some, [], ltb, if◌then◌else◌, ◌==◌, nat_eq,
  string_eq, Result, ok, err, ◌>>=◌, int_eq,
}
use ginx.GoMap.{get}
use Prim.Native.String.{len as len_bytes}
use ginx.Persist.Memory.{Player, Context, PersistError, player_not_found}
use ginx.Session.{Session, issue}
use ginx.Gameapp.Service.{
  Account, PlayerStore, Service, ServiceError, LoginResult, unauthorized, identity_mismatch,
  of_store, of_session, disconnect_locked,
}

module _ {S E : Type 0} (players : PlayerStore S E) where
  -- The stored player, or a new one that is saved.
  unfoldable pub load_or_create :
      S → Context → String → ℕ → ℕ → Result (PersistError E) (Player × S)
  load_or_create store ctx account_id player_id now = elim (players.load store ctx player_id) [
    | ok player ↦ ok (player, store)
    | err player_not_found ↦
        let player : Player = record {
          player_id = player_id;
          account_id = account_id;
          payload = [];
          updated_at = now;
        } in
        do store' ← players.save store ctx (some player); ok (player, store')
    | err x ↦ err x
  ]

-- The connection of the session that was replaced is closed.
abbrev pub drop_replaced : {C S : Type 0} → Option Session → Service C S → Service C S
drop_replaced none s = s
drop_replaced (some old) s = if old.bound then disconnect_locked s old.conn_id true else s

-- An account that is not there is checked against some hash all the same.
abbrev hash_for : {C S : Type 0} → Service C S → Option Account → String
hash_for s none = s.dummy_hash
hash_for s (some account) = account.password_hash

-- The tests before the store is asked; bcrypt takes 72 bytes.
unfoldable pub is_refused :
    {C S : Type 0} → (String → String → Bool) → Service C S → Option Account → String → Bool
is_refused same_password s found password =
    not (same_password (hash_for s found) password)
    || len_bytes password == 0
    || ltb 72 (len_bytes password)
    || s.closed

module _ {C S E : Type 0} (players : PlayerStore S E) where
  -- The result, and the service after the call: a player that was created stays when a later step fails.
  unfoldable pub login_locked :
      Service C S
      → Context
      → Account
      → String
      → String
      → ℕ
      → ℕ
      → Result (ServiceError E) LoginResult × Service C S
  unfolding load_or_create
  login_locked s ctx account account_id token now now' =
      elim (load_or_create players s.store ctx account_id account.player_id now) [
        | err x ↦ (err (of_store x), s)
        | ok (player, store) ↦
            let s' = record s { store = store } in
            if not (player.account_id == account_id)
            then (err identity_mismatch, s')
            else elim (issue s'.sessions token account_id account.player_id s.ttl now') [
              | err x ↦ (err (of_session x), s')
              | ok (value, old, sessions) ↦ (
                ok (record {
                  token = value.token;
                  player_id = value.player_id;
                  expires_at = value.expires_at;
                }),
                drop_replaced old (record s' { sessions = sessions }),
              )
            ]
      ]

  unfoldable pub login :
      (String → String → Bool)
      → Service C S
      → Context
      → String
      → String
      → String
      → ℕ
      → ℕ
      → Result (ServiceError E) LoginResult × Service C S
  unfolding login_locked is_refused
  login same_password s ctx account_id password token now now' =
      let found = get account_id s.accounts in
      if is_refused same_password s found password then (err unauthorized, s) else elim found [
        | none ↦ (err unauthorized, s)
        | some account ↦ login_locked s ctx account account_id token now now'
      ]
