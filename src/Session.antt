-- ===== src/Session.antt =====
-- session/session.go and the counter of session/legacy.go: who is logged in, by token, account, player and
-- connection. A manager is not nil; each reading of the clock is an argument, 0 being Go's zero time;
-- the token that crypto/rand gives a call is an argument too. The lock makes each method one step.
pub mod Login
pub mod Invariant
pub mod Issuing
pub mod Binding
pub mod Bound
pub mod Removal
pub mod Legacy
pub mod Numbering
pub mod History
mod Examples
use ginx.Prelude.{
  ℕ, ◌+◌, String, Bool, true, false, not, ◌&&◌, ◌||◌, Option, none, some, List, [], ◌∷◌, ◌++◌, ltb,
  if◌then◌else◌, ◌==◌, nat_eq, string_eq, Result, ok, err, reject, or_fail, ◌>>=◌, ◌>>◌, ℤ,
  is_positive, to_nat,
}
use ginx.GoMap.{GoMap, get, put, delete, size}

pub record Session : Type 0 where
  pub token : String
  pub account_id : String
  pub player_id : ℕ
  pub conn_id : ℕ
  pub bound : Bool
  pub expires_at : ℕ
  pub created_at : ℕ
  pub updated_at : ℕ

pub data AccountPolicy : Type 0 where
  reject_existing replace_existing : AccountPolicy

-- `legacy` is the counter of the deprecated constructor.
pub record Manager : Type 0 where
  pub legacy : Option ℕ
  pub account_policy : AccountPolicy
  pub by_token : GoMap String Session
  pub by_account_id : GoMap String String
  pub by_player_id : GoMap ℕ String
  pub by_conn_id : GoMap ℕ String

-- `nil_dereference` is no error of the package: the panic where a token of one map is missing in
-- another.
pub data SessionError : Type 0 where
  session_not_found session_expired no_legacy empty_account invalid_identity : SessionError
  other_accounts_player account_active invalid_token already_bound : SessionError
  connection_authenticated nil_dereference : SessionError

unfoldable pub new_manager : AccountPolicy → Option ℕ → Manager
new_manager policy legacy = record {
  legacy = legacy;
  account_policy = policy;
  by_token = [];
  by_account_id = [];
  by_player_id = [];
  by_conn_id = [];
}

-- A zero expiry is none.
abbrev pub expired : Session → ℕ → Bool
expired value now = not (value.expires_at == 0) && not (ltb now value.expires_at)

-- A session that a map's token leads to, unless it has run out.
live_at : Manager → Option String → ℕ → Result SessionError Session
live_at m none now = err session_not_found
live_at m (some token) now = elim (get token m.by_token) [
  | none ↦ err nil_dereference
  | some value ↦ if expired value now then err session_expired else ok value
]

pub get_by_token : Manager → String → ℕ → Result SessionError Session
get_by_token m token now = do
  session ← or_fail (get token m.by_token) session_not_found
  reject (expired session now) session_not_found
  ok session

unfoldable pub get_by_conn_id : Manager → ℕ → ℕ → Result SessionError Session
unfolding live_at
get_by_conn_id m conn_id now = live_at m (get conn_id m.by_conn_id) now

pub get_by_player_id : Manager → ℕ → ℕ → Result SessionError Session
unfolding live_at
get_by_player_id m player_id now = live_at m (get player_id m.by_player_id) now

pub touch : Manager → String → ℕ → ℕ → Result SessionError Manager
touch m token now later = do
  session ← or_fail (get token m.by_token) session_not_found
  reject (expired session now) session_not_found
  ok (record m { by_token = put token (record session { updated_at = later }) m.by_token })

-- The entry of the connection goes only if it is this session's.
conns_without : String → Session → GoMap ℕ String → GoMap ℕ String
conns_without token session conns = elim (get session.conn_id conns) [
  | none ↦ conns
  | some owner ↦ if session.bound && owner == token then delete session.conn_id conns else conns
]

remove_session : Manager → String → Session → Manager
unfolding conns_without
remove_session m token session = record m {
  by_token = delete token m.by_token;
  by_account_id = delete session.account_id m.by_account_id;
  by_player_id = delete session.player_id m.by_player_id;
  by_conn_id = conns_without token session m.by_conn_id;
}

pub remove_locked : Manager → String → Manager
unfolding remove_session
remove_locked m token = elim (get token m.by_token) [
  | none ↦ m
  | some session ↦ remove_session m token session
]

pub logout_by_token : Manager → String → Result SessionError (Session × Manager)
logout_by_token m token = do
  session ← or_fail (get token m.by_token) session_not_found
  ok (session, remove_locked m token)

-- `sessionCopy` of a nil session is nil.
pub logout_by_conn_id : Manager → ℕ → Result SessionError (Option Session × Manager)
logout_by_conn_id m conn_id = do
  token ← or_fail (get conn_id m.by_conn_id) session_not_found
  ok (get token m.by_token, remove_locked m token)

pub len : Manager → ℕ
len m = size m.by_token

-- The compare-and-swap loop runs under the lock: one round at most.
observe_legacy_id : Option ℕ → ℕ → Option ℕ
observe_legacy_id none id = none
observe_legacy_id (some current) id = some (if ltb current id then id else current)

-- The account's session before the call, if it has one, is replaced or stands in the way.
unfoldable pub replace_account :
    Manager → String → ℕ → Result SessionError (Option Session × Manager)
replace_account m account_id now = elim (get account_id m.by_account_id) [
  | none ↦ ok (none, m)
  | some old_token ↦ elim (get old_token m.by_token) [
    | none ↦ err nil_dereference
    | some old ↦ elim m.account_policy [
      | reject_existing ↦
          if expired old now then ok (some old, remove_locked m old_token) else err account_active
      | replace_existing ↦ ok (some old, remove_locked m old_token)
    ]
  ]
]

unfoldable pub player_guard : Manager → String → ℕ → Result SessionError (Unit {0})
player_guard m account_id player_id = elim (get player_id m.by_player_id) [
  | none ↦ ok tt
  | some old_token ↦ elim (get old_token m.by_token) [
    | none ↦ err nil_dereference
    | some old ↦ reject (not (old.account_id == account_id)) other_accounts_player
  ]
]

abbrev pub issued_session : String → String → ℕ → ℕ → ℕ → Session
issued_session token account_id player_id ttl now = record {
  token = token;
  account_id = account_id;
  player_id = player_id;
  conn_id = 0;
  bound = false;
  expires_at = now + ttl;
  created_at = now;
  updated_at = now;
}

-- The maps with a session that is not bound.
unfoldable pub enter : Manager → Session → Manager
unfolding observe_legacy_id
enter m value = record m {
  by_token = put value.token value m.by_token;
  by_account_id = put value.account_id value.token m.by_account_id;
  by_player_id = put value.player_id value.token m.by_player_id;
  legacy = observe_legacy_id m.legacy value.player_id;
}

-- The new session, the one that it replaces, and the manager. The failure of the random source,
-- which changes nothing, is left out.
unfoldable pub issue :
    Manager → String → String → ℕ → ℤ → ℕ → Result SessionError (Session × Option Session × Manager)
unfolding player_guard
issue m token account_id player_id ttl now = do
  reject (account_id == "" || player_id == 0 || not (is_positive ttl)) invalid_identity
  let value = issued_session token account_id player_id (to_nat ttl) now
  player_guard m account_id player_id
  (replaced, m') ← replace_account m account_id now
  ok (value, replaced, enter m' value)

-- Another token's claim on the connection.
taken : Option String → String → Bool
taken none token = false
taken (some other) token = not (other == token)

unfoldable pub bind : Manager → String → ℕ → ℕ → ℕ → Result SessionError (Session × Manager)
unfolding taken
bind m token conn_id now later = do
  value ← or_fail (get token m.by_token) invalid_token
  reject (expired value now) invalid_token
  reject (value.bound && not (value.conn_id == conn_id)) already_bound
  reject (taken (get conn_id m.by_conn_id) token) connection_authenticated
  let bound_value = record value { conn_id = conn_id; bound = true; updated_at = later }
  ok (
    bound_value,
    record m {
      by_token = put token bound_value m.by_token;
      by_conn_id = put conn_id token m.by_conn_id;
    },
  )

expire_loop : ℕ → GoMap String Session → Manager → List Session → List Session × Manager
expire_loop now [] m removed = (removed, m)
expire_loop now ((token, value) ∷ rest) m removed =
    expire_loop now rest (if expired value now then remove_locked m token else m)
      (if expired value now then removed ++ value ∷ [] else removed)

-- The loop removes no entry but the one that it visits.
pub remove_expired : Manager → ℕ → List Session × Manager
unfolding expire_loop
remove_expired m now = expire_loop now m.by_token m []
