-- ===== src/Gameapp/Service/Steps.antt =====
-- The rooms' members and the rooms that the connections are noted in agree, after every call.
use ginx.Prelude.{
  ℕ, ◌+◌, ◌*◌, ◌^◌, ◌≡◌, ap, inl, inr, Bool, not, ◌&&◌, none, some, arith, ◌==◌, nat_eq, string_eq,
  Bool-cases, Option-cases, int_eq,
}
use ginx.GoMap.{get}
use ginx.GoMap.Laws.{get-put, get-delete}
use ginx.Gcore.Room.Manager.{IsRegistry}
use ginx.Gameapp.Service.{Service, ConnectedPlayer, disconnect_locked, connected}
use ginx.Gameapp.Service.Requests.{with_player}
use ginx.Gameapp.Service.Seats.{
  in_room, sits, leave_if_found-IsRegistry, in_room-leave_if_found, leave_if_found-rooms,
}

module _ {C S : Type 0} (get_conn_id : C → ℕ) where
  -- A connection stands under its own identifier, and is a member of exactly the room that it is noted
  -- in, if any: never of two rooms, and no room has a member that is not connected.
  pub record IsSeated (s : Service C S) : Type 0 where
    pub registry : IsRegistry s.rooms
    pub no_zero : get 0 s.rooms.rooms ≡ none
    pub owned :
        (k : ℕ) (p : ConnectedPlayer C)
        → get k s.connections ≡ some p
        → get_conn_id p.connection ≡ k
    pub seated :
        (id k : ℕ) → in_room s.rooms id k ≡ (not (id == 0) && sits id (get k s.connections))

  module _ (s : Service C S) (v : IsSeated s) where
    pub disconnect_locked-IsSeated : (k : ℕ) (stop : Bool) → IsSeated (disconnect_locked s k stop)
    unfolding disconnect_locked
    disconnect_locked-IsSeated k stop = elim (Option-cases (get k s.connections)) [
      | inl n ↦ rw (n, disconnect_locked) v
      | inr (p, e) ↦
          rw (e, disconnect_locked)
            (elim (Bool-cases (p.room_id == 0)) [
              | inl z ↦ rw z (record {
                registry = v.registry;
                no_zero = v.no_zero;
                owned = λ j q g. ground (arith, g, get-delete j k s.connections, v.owned j q);
                seated = λ i j. ground (arith, z, e, get-delete j k s.connections, v.seated i j);
              })
              | inr z ↦ rw z (record {
                registry = leave_if_found-IsRegistry s.rooms v.registry p.room_id k;
                no_zero = rw (leave_if_found-rooms s.rooms v.registry p.room_id k) v.no_zero;
                owned = λ j q g. ground (arith, g, get-delete j k s.connections, v.owned j q);
                seated = λ i j. ground (
                  arith,
                  z,
                  e,
                  get-delete j k s.connections,
                  v.seated i j,
                  in_room-leave_if_found s.rooms v.registry p.room_id k i j,
                );
              })
            ])
    ]

    -- The framework gives no two connections one identifier.
    pub connected-IsSeated :
        (c : C) (now : ℕ)
        → get (get_conn_id c) s.connections ≡ none
        → IsSeated (connected get_conn_id s c now)
    unfolding connected
    connected-IsSeated c now new = elim (Bool-cases s.closed) [
      | inl z ↦
          rw (z, connected)
            (record {
              registry = v.registry;
              no_zero = v.no_zero;
              owned = v.owned;
              seated = v.seated;
            })
      | inr z ↦
          let p : ConnectedPlayer C = record {
            connection = c;
            room_id = 0;
            auth_deadline = now + 30 * 10 ^ 9;
          } in
          rw (z, connected)
            (record {
              registry = v.registry;
              no_zero = v.no_zero;
              owned = λ j q g.
                  ground (arith, g, get-put j (get_conn_id c) p s.connections, v.owned j q);
              seated = λ i j.
                  ground (arith, new, get-put j (get_conn_id c) p s.connections, v.seated i j);
            })
    ]

    -- A change of a connection's entry that keeps the connection and its room.
    pub with_player-IsSeated :
        (k : ℕ) (p q : ConnectedPlayer C)
        → get k s.connections ≡ some p
        → q.connection ≡ p.connection
        → q.room_id ≡ p.room_id
        → IsSeated (with_player s k q)
    with_player-IsSeated k p q e same same' = record {
      registry = v.registry;
      no_zero = v.no_zero;
      owned = λ j r g. ground (
        arith,
        g,
        e,
        same,
        ap get_conn_id same,
        get-put j k q s.connections,
        v.owned j r,
        v.owned k p,
      );
      seated = λ i j. ground (arith, e, same', get-put j k q s.connections, v.seated i j);
    }
