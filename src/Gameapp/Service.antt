-- ===== src/Gameapp/Service.antt =====
-- examples/gameapp/service.go: logins, connections and rooms together. The lock makes each method one
-- step; a reading of the clock is an argument, 0 being Go's zero time. The player store is an interface
-- of the repository, bcrypt is a parameter, and `stopped` lists the connections that were told to stop.
pub mod Setup
pub mod Requests
pub mod Login
pub mod Closing
pub mod Seats
pub mod Steps
pub mod Seating
pub mod Keeping
pub mod Started
pub mod History
pub mod Ending
mod Examples
use ginx.Prelude.{
  ℕ, ◌+◌, ◌*◌, ◌^◌, String, Bool, false, not, ◌&&◌, Option, none, some, List, [], ◌∷◌, ◌++◌, ltb,
  if◌then◌else◌, ◌==◌, nat_eq, string_eq, Result, ok, err, ◌>>=◌, ◌>>◌, reject, or_fail, ℤ, int_eq,
}
use ginx.GoMap.{GoMap, get, put, delete}
use ginx.Persist.Memory.{Player, Context, PersistError}
use ginx.Session.{Session, Manager, SessionError, get_by_token, get_by_conn_id, logout_by_conn_id}
use ginx.Gcore.Room.{Room, RoomError, join, leave, player_count, state_name}
use ginx.Gcore.Room.Manager.{RoomManager, get_room}

pub record Account : Type 0 where
  pub account_id : String
  pub player_id : ℕ
  pub password_hash : String

-- persist.PlayerStore, of which the service loads and saves. A save that fails changes nothing.
pub record PlayerStore (S E : Type 0) : Type 0 where
  pub load : S → Context → ℕ → Result (PersistError E) Player
  pub save : S → Context → Option Player → Result (PersistError E) S

-- `nil_dereference` is no error of the package: the panic where a room is missing.
pub data ServiceError (E : Type 0) : Type 0 where
  unauthorized room_not_found room_unavailable identity_mismatch nil_dereference : ServiceError E
  bad_arguments invalid_account duplicate_account bad_hash bad_room : ServiceError E
  of_store : PersistError E → ServiceError E
  of_session : SessionError → ServiceError E
  of_room : RoomError → ServiceError E

pub record LoginResult : Type 0 where
  pub token : String
  pub player_id : ℕ
  pub expires_at : ℕ

pub record PlayerView : Type 0 where
  pub player : Player
  pub online : Bool
  pub room_id : ℕ

pub record RoomView : Type 0 where
  pub id : ℕ
  pub max_players : ℤ
  pub players : ℕ
  pub state : String

pub record ConnectedPlayer (C : Type 0) : Type 0 where
  pub connection : C
  pub room_id : ℕ
  pub auth_deadline : ℕ

pub record Service (C S : Type 0) : Type 0 where
  pub accounts : GoMap String Account
  pub dummy_hash : String
  pub sessions : Manager
  pub store : S
  pub rooms : RoomManager C
  pub room_ids : List ℕ
  pub connections : GoMap ℕ (ConnectedPlayer C)
  pub ttl : ℤ
  pub closed : Bool
  pub stopped : List C

-- `!deadline.IsZero() && !now.Before(deadline)`
abbrev pub overdue : {C : Type 0} → ConnectedPlayer C → ℕ → Bool
overdue p now = not (p.auth_deadline == 0) && not (ltb now p.auth_deadline)

-- `room.Join` and `room.Leave` through a reference.
pub join_at : {C : Type 0} → (C → ℕ) → ℕ → C → RoomManager C → Result RoomError (RoomManager C)
join_at get_conn_id ref connection rooms = elim (get ref rooms.heap) [
  | none ↦ ok rooms
  | some room ↦ do
    room' ← join get_conn_id room (some connection)
    ok (record rooms { heap = put ref room' rooms.heap })
]

pub leave_at : {C : Type 0} → ℕ → ℕ → RoomManager C → RoomManager C
leave_at ref conn_id rooms = elim (get ref rooms.heap) [
  | none ↦ rooms
  | some room ↦ elim (leave room conn_id) [
    | err x ↦ rooms
    | ok room' ↦ record rooms { heap = put ref room' rooms.heap }
  ]
]

-- `if room, err := GetRoom(id); err == nil { _ = room.Leave(connID) }`
pub leave_if_found : {C : Type 0} → ℕ → ℕ → RoomManager C → RoomManager C
unfolding leave_at
leave_if_found room_id conn_id rooms = elim (get_room rooms room_id) [
  | err x ↦ rooms
  | ok ref ↦ leave_at ref conn_id rooms
]

pub room_view : {C : Type 0} → Room C → RoomView
room_view room = record {
  id = room.id;
  max_players = room.max_players;
  players = player_count room;
  state = state_name room.state;
}

-- `roomView` of what a reference leads to.
pub view_at : {C E : Type 0} → ℕ → RoomManager C → Result (ServiceError E) RoomView
unfolding room_view
view_at ref rooms = elim (get ref rooms.heap) [
  | none ↦ err nil_dereference
  | some room ↦ ok (room_view room)
]

module _ {C S E : Type 0} where
  pub session_locked : Service C S → String → ℕ → Result (ServiceError E) Session
  session_locked s token now = do
    reject s.closed unauthorized
    elim (get_by_token s.sessions token now) [ err x ↦ err unauthorized | ok value ↦ ok value ]

  pub authenticated_locked : Service C S → ℕ → ℕ → Result (ServiceError E) (ConnectedPlayer C)
  authenticated_locked s conn_id now = do
    reject s.closed unauthorized
    connection ← or_fail (get conn_id s.connections) unauthorized
    elim (get_by_conn_id s.sessions conn_id now) [
      | err x ↦ err unauthorized
      | ok value ↦ ok connection
    ]

-- The manager after a logout whose result is dropped.
abbrev pub logged_out : Manager → ℕ → Manager
logged_out m conn_id = elim (logout_by_conn_id m conn_id) [ err x ↦ m | ok (_, m') ↦ m' ]

module _ {C S : Type 0} where
  pub disconnect_locked : Service C S → ℕ → Bool → Service C S
  unfolding leave_if_found
  disconnect_locked s conn_id stop = elim (get conn_id s.connections) [
    | none ↦ s
    | some p ↦ record s {
      rooms = if p.room_id == 0 then s.rooms else leave_if_found p.room_id conn_id s.rooms;
      sessions = logged_out s.sessions conn_id;
      connections = delete conn_id s.connections;
      stopped = if stop then s.stopped ++ (p.connection ∷ []) else s.stopped;
    }
  ]

  -- The deadline is thirty seconds away, in nanoseconds.
  pub connected : (C → ℕ) → Service C S → C → ℕ → Service C S
  connected get_conn_id s connection now =
      if s.closed then record s { stopped = s.stopped ++ (connection ∷ []) } else record s {
        connections =
            put (get_conn_id connection)
              (record { connection = connection; room_id = 0; auth_deadline = now + 30 * 10 ^ 9 })
              s.connections;
      }

  pub disconnected : (C → ℕ) → Service C S → C → Service C S
  unfolding disconnect_locked
  disconnected get_conn_id s connection = disconnect_locked s (get_conn_id connection) false
