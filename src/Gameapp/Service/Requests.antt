-- ===== src/Gameapp/Service/Requests.antt =====
-- examples/gameapp/service.go: what a connection may ask for, and the views of a token's owner.
use ginx.Prelude.{
  ℕ, String, Bool, true, false, Option, none, some, List, [], ◌∷◌, if◌then◌else◌, ◌==◌, nat_eq,
  string_eq, Result, ok, err, ◌>>=◌, ◌>>◌, reject, or_fail, int_eq,
}
use ginx.GoMap.{get, put}
use ginx.Persist.Memory.{Context}
use ginx.Session.{Session, bind}
use ginx.Gcore.Room.Manager.{RoomManager, get_room}
use ginx.Gameapp.Service.{
  PlayerStore, Service, ServiceError, ConnectedPlayer, PlayerView, RoomView, unauthorized,
  room_not_found, room_unavailable, nil_dereference, of_store, overdue, join_at, leave_at,
  leave_if_found, view_at, session_locked, authenticated_locked,
}

abbrev pub with_player : {C S : Type 0} → Service C S → ℕ → ConnectedPlayer C → Service C S
with_player s conn_id p = record s { connections = put conn_id p s.connections }

abbrev online_view : {C : Type 0} → Session → Option (ConnectedPlayer C) → Bool × ℕ
online_view value none = (false, 0)
online_view value (some p) = if value.bound then (true, p.room_id) else (false, 0)

room_views : {C E : Type 0} → RoomManager C → List ℕ → Result (ServiceError E) (List RoomView)
room_views rooms [] = ok []
room_views rooms (id ∷ ids) = elim (get_room rooms id) [
  | err x ↦ err nil_dereference
  | ok ref ↦ do view ← view_at ref rooms; rest ← room_views rooms ids; ok (view ∷ rest)
]

module _ {C S E : Type 0} where
  -- The clock is read for the deadline, and twice by the session manager.
  unfoldable pub authenticate :
      Service C S → ℕ → String → ℕ → ℕ → ℕ → Result (ServiceError E) (ℕ × Service C S)
  authenticate s conn_id token now now' later = do
    reject s.closed unauthorized
    connection ← or_fail (get conn_id s.connections) unauthorized
    reject (overdue connection now) unauthorized
    elim (bind s.sessions token conn_id now' later) [
      | err x ↦ err unauthorized
      | ok (value, sessions) ↦ ok (
        value.player_id,
        with_player (record s { sessions = sessions }) conn_id
            (record connection { auth_deadline = 0 }),
      )
    ]

  -- A connection that is not in the room enters it, and leaves the one that it was in.
  unfoldable pub join_room :
      (C → ℕ) → Service C S → ℕ → ℕ → ℕ → Result (ServiceError E) (RoomView × Service C S)
  join_room get_conn_id s conn_id room_id now = do
    connection ← authenticated_locked s conn_id now
    elim (get_room s.rooms room_id) [
      | err x ↦ err room_not_found
      | ok ref ↦
          if connection.room_id == room_id
          then (do view ← view_at ref s.rooms; ok (view, s))
          else elim (join_at get_conn_id ref connection.connection s.rooms) [
            | err x ↦ err room_unavailable
            | ok rooms ↦
                let rooms' = leave_if_found connection.room_id conn_id rooms in
                do
                  view ← view_at ref rooms'
                  ok (
                    view,
                    with_player (record s { rooms = rooms' }) conn_id
                        (record connection { room_id = room_id }),
                  )
          ]
    ]

  unfoldable pub leave_room : Service C S → ℕ → ℕ → Result (ServiceError E) (Service C S)
  leave_room s conn_id now = do
    connection ← authenticated_locked s conn_id now
    if connection.room_id == 0 then ok s else elim (get_room s.rooms connection.room_id) [
      | err x ↦ err nil_dereference
      | ok ref ↦ ok (
          with_player (record s { rooms = leave_at ref conn_id s.rooms }) conn_id
            (record connection { room_id = 0 }))
    ]

  unfoldable pub heartbeat : Service C S → ℕ → ℕ → Result (ServiceError E) (Unit {0})
  heartbeat s conn_id now = do _ ← authenticated_locked s conn_id now; ok tt

  unfoldable pub me :
      PlayerStore S E → Service C S → Context → String → ℕ → Result (ServiceError E) PlayerView
  me players s ctx token now = do
    value ← session_locked s token now
    elim (players.load s.store ctx value.player_id) [
      | err x ↦ err (of_store x)
      | ok player ↦
          let (online, room_id) = online_view value (get value.conn_id s.connections) in
          ok (record { player = player; online = online; room_id = room_id })
    ]

  unfoldable pub list_rooms : Service C S → String → ℕ → Result (ServiceError E) (List RoomView)
  unfolding room_views
  list_rooms s token now = do _ ← session_locked s token now; room_views s.rooms s.room_ids
