-- ===== src/Gameapp/Service/Seating.antt =====
-- A player who authenticates, leaves its room or joins another keeps the rooms' members and the rooms
-- that the connections are noted in agreed.
use ginx.Prelude.{
  ℕ, String, ◌≡◌, refl, subst, ◌≢◌, inl, inr, false, none, some, arith, ◌==◌, nat_eq, string_eq,
  ==_iff, Bool-cases, Option-cases, ok, Result-cases, int_eq,
}
use ginx.GoMap.{get}
use ginx.GoMap.Laws.{get-put}
use ginx.Session.{bind, get_by_conn_id}
use ginx.Gameapp.Service.Steps.{IsSeated, with_player-IsSeated}
use ginx.Gcore.Room.Manager.{RoomManager, get_room, get_room-found}
use ginx.Gameapp.Service.{
  Service, ConnectedPlayer, RoomView, join_at, leave_at, leave_if_found, view_at,
  authenticated_locked,
}
use ginx.Gameapp.Service.Requests.{with_player, authenticate, join_room, leave_room}
use ginx.Gameapp.Service.Seats.{
  in_room-leave_at, leave_at-IsRegistry, leave_if_found-IsRegistry, in_room-leave_if_found,
  in_room-join_at, join_at-IsRegistry, leave_at-rooms, leave_if_found-rooms, join_at-rooms,
}

module _ {C S : Type 0} (get_conn_id : C → ℕ) (s : Service C S) (v : IsSeated get_conn_id s) where
  join_there : (id ref : ℕ) → get id s.rooms.rooms ≡ some ref → get ref s.rooms.heap ≢ none
  join_there id ref e = ground (arith, v.registry.named id ref e)

  -- What leave_room leaves behind.
  left-IsSeated :
      (k ref : ℕ) (p : ConnectedPlayer C)
      → get k s.connections ≡ some p
      → (p.room_id == 0) ≡ false
      → get p.room_id s.rooms.rooms ≡ some ref
      → IsSeated get_conn_id
          (with_player (record s { rooms = leave_at ref k s.rooms }) k (record p { room_id = 0 }))
  left-IsSeated k ref p here z found =
      let p' : ConnectedPlayer C = record p { room_id = 0 } in
      record {
        registry = leave_at-IsRegistry s.rooms v.registry ref k;
        no_zero = rw (leave_at-rooms s.rooms v.registry ref k) v.no_zero;
        owned = λ j q g.
            ground (arith, g, here, get-put j k p' s.connections, v.owned j q, v.owned k p);
        seated = λ i j. ground (
          arith,
          z,
          here,
          get-put j k p' s.connections,
          v.seated i j,
          in_room-leave_at s.rooms v.registry p.room_id ref k i j found,
        );
      }

  -- What join_room leaves behind, when it goes to another room.
  moved-IsSeated :
      (k room_id ref : ℕ) (p : ConnectedPlayer C) (rooms : RoomManager C)
      → get k s.connections ≡ some p
      → (p.room_id == room_id) ≡ false
      → get room_id s.rooms.rooms ≡ some ref
      → join_at get_conn_id ref p.connection s.rooms ≡ ok rooms
      → IsSeated get_conn_id (
          with_player
            (record s { rooms = leave_if_found p.room_id k rooms })
            k
            (record p { room_id = room_id }))
  moved-IsSeated k room_id ref p rooms here z found g =
      let registry = join_at-IsRegistry s.rooms v.registry get_conn_id ref p.connection rooms g in
      let p' : ConnectedPlayer C = record p { room_id = room_id } in
      record {
        registry = leave_if_found-IsRegistry rooms registry p.room_id k;
        no_zero =
            rw
              (
                leave_if_found-rooms rooms registry p.room_id k,
                join_at-rooms s.rooms v.registry get_conn_id ref p.connection rooms g,
              )
              v.no_zero;
        owned = λ j q t.
            ground (arith, t, here, get-put j k p' s.connections, v.owned j q, v.owned k p);
        seated = λ i j. ground (
          arith,
          z,
          here,
          found,
          v.no_zero,
          v.owned k p here,
          get-put j k p' s.connections,
          v.seated i j,
          ==_iff room_id i,
          in_room-leave_if_found rooms registry p.room_id k i j,
          in_room-join_at s.rooms v.registry get_conn_id ref p.connection rooms room_id i j found g
              (join_there room_id ref found),
        );
      }

  module _ {E : Type 0} where
    pub authenticated_found :
        (k now : ℕ) (p : ConnectedPlayer C)
        → authenticated_locked {E = E} s k now ≡ ok p
        → get k s.connections ≡ some p
    unfolding authenticated_locked
    authenticated_found k now p h = elim (Option-cases (get k s.connections)) [
      | inl n ↦ absurd (ground (arith, h, n))
      | inr (q, e) ↦ elim (Result-cases (get_by_conn_id s.sessions k now)) [
        | inl (value, f) ↦ ground (arith, h, e, f)
        | inr (x, f) ↦ absurd (ground (arith, h, e, f))
      ]
    ]

    pub authenticate-IsSeated :
        (k : ℕ) (token : String) (now now' later player : ℕ) (s' : Service C S)
        → authenticate {E = E} s k token now now' later ≡ ok (player, s')
        → IsSeated get_conn_id s'
    unfolding authenticate
    authenticate-IsSeated k token now now' later player s' h =
        elim (Option-cases (get k s.connections)) [
          | inl n ↦ absurd (ground (arith, h, n))
          | inr (p, e) ↦ elim (Result-cases (bind s.sessions token k now' later)) [
            | inr (x, f) ↦ absurd (ground (arith, h, e, f))
            | inl ((value, sessions), f) ↦
                let q : ConnectedPlayer C = record p { auth_deadline = 0 } in
                let w = with_player-IsSeated get_conn_id s v k p q e refl refl in
                let w' : IsSeated get_conn_id (with_player (record s { sessions = sessions }) k q) =
                  record {
                    registry = w.registry;
                    no_zero = w.no_zero;
                    owned = w.owned;
                    seated = w.seated;
                  } in
                subst (IsSeated get_conn_id) (ground (arith, h, e, f)) w'
          ]
        ]

    pub leave_room-IsSeated :
        (k now : ℕ) (s' : Service C S)
        → leave_room {E = E} s k now ≡ ok s'
        → IsSeated get_conn_id s'
    unfolding leave_room
    leave_room-IsSeated k now s' h = elim (Result-cases (authenticated_locked {E = E} s k now)) [
      | inr (x, e) ↦ absurd (ground (arith, h, e))
      | inl (p, e) ↦ elim (Bool-cases (p.room_id == 0)) [
        | inl z ↦ subst (IsSeated get_conn_id) (ground (arith, h, e, z)) v
        | inr z ↦ elim (Result-cases (get_room s.rooms p.room_id)) [
          | inr (x, f) ↦ absurd (ground (arith, h, e, z, f))
          | inl (ref, f) ↦ subst (IsSeated get_conn_id) (ground (arith, h, e, z, f)) (
              left-IsSeated k ref p (authenticated_found k now p e) z
                (get_room-found s.rooms p.room_id ref f))
        ]
      ]
    ]

    pub join_room-IsSeated :
        (k room_id now : ℕ) (view : RoomView) (s' : Service C S)
        → join_room {E = E} get_conn_id s k room_id now ≡ ok (view, s')
        → IsSeated get_conn_id s'
    unfolding join_room
    join_room-IsSeated k room_id now view s' h =
        elim (Result-cases (authenticated_locked {E = E} s k now)) [
          | inr (x, e) ↦ absurd (ground (arith, h, e))
          | inl (p, e) ↦ elim (Result-cases (get_room s.rooms room_id)) [
            | inr (x, f) ↦ absurd (ground (arith, h, e, f))
            | inl (ref, f) ↦ elim (Bool-cases (p.room_id == room_id)) [
              | inl z ↦
                  subst (IsSeated get_conn_id)
                    (ground (arith, h, e, f, z, Result-cases (view_at {E = E} ref s.rooms))) v
              | inr z ↦ elim (Result-cases (join_at get_conn_id ref p.connection s.rooms)) [
                | inr (x, g) ↦ absurd (ground (arith, h, e, f, z, g))
                | inl (rooms, g) ↦
                    let rooms' = leave_if_found p.room_id k rooms in
                    subst (IsSeated get_conn_id)
                      (ground (arith, h, e, f, z, g, Result-cases (view_at {E = E} ref rooms')))
                      (moved-IsSeated k room_id ref p rooms (authenticated_found k now p e) z
                        (get_room-found s.rooms room_id ref f) g)
              ]
            ]
          ]
        ]
