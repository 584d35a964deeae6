-- ===== src/Gameapp/Service/Seats.antt =====
-- Who sits in which room, by the rooms' own members, and what joining and leaving change of it.
use ginx.Prelude.{
  ℕ, suc, ◌≡◌, refl, ap, subst, ◌≢◌, inl, inr, Bool, true, false, ◌&&◌, Option, none, some, arith,
  if◌then◌else◌, ◌==◌, nat_eq, string_eq, ==_iff, Option-cases, ok, Result-cases, ℤ, int_eq,
}
use ginx.GoMap.{GoMap, get, put, has}
use ginx.GoMap.Laws.{get-put, get_empty}
use ginx.Gcore.Room.{Room, new_room, join, leave}
use ginx.Gcore.Room.Effects.{new_room-members, join-members, leave-members, leave-refused}
use ginx.Gcore.Room.Manager.{
  RoomManager, create_room, new_room_manager, new_room_manager_empty, get_room, get_room-found,
  get_room-missing, IsRegistry,
}
use ginx.Gameapp.Service.{ConnectedPlayer, join_at, leave_at, leave_if_found}

module _ {C : Type 0} where
  abbrev members_at : GoMap ℕ (Room C) → ℕ → ℕ → Bool
  members_at heap ref k = elim (get ref heap) [ none ↦ false | some room ↦ has k room.members ]

  pub in_room : RoomManager C → ℕ → ℕ → Bool
  in_room m id k = elim (get id m.rooms) [ none ↦ false | some ref ↦ members_at m.heap ref k ]

  -- Where a connection says that it sits.
  abbrev pub sits : ℕ → Option (ConnectedPlayer C) → Bool
  sits id none = false
  sits id (some p) = p.room_id == id

  module _ (m : RoomManager C) (v : IsRegistry m) where
    -- Changing a room behind its reference, its identifier kept, leaves the registry well-formed.
    put_room-IsRegistry :
        (ref : ℕ) (room room' : Room C)
        → get ref m.heap ≡ some room
        → room'.id ≡ room.id
        → IsRegistry (record m { heap = put ref room' m.heap })
    put_room-IsRegistry ref room room' e same = record {
      unique = v.unique;
      allocated = λ r h. ground (arith, e, v.allocated r h, get-put r ref room' m.heap);
      named = λ i r g. ground (arith, e, same, g, v.named i r g, get-put r ref room' m.heap);
    }

    -- Registered identifiers lead to different rooms.
    same_ref : (i j ref : ℕ) → get i m.rooms ≡ some ref → get j m.rooms ≡ some ref → i ≡ j
    same_ref i j ref e f =
        ground (arith, v.named i ref e, v.named j ref f, Option-cases (get ref m.heap))

    pub leave_at-IsRegistry : (ref k : ℕ) → IsRegistry (leave_at ref k m)
    unfolding leave_at
    leave_at-IsRegistry ref k = elim (Option-cases (get ref m.heap)) [
      | inl n ↦ rw (n, leave_at) v
      | inr (room, e) ↦ elim (Result-cases (leave room k)) [
        | inl (room', f) ↦
            rw (e, f, leave_at)
              (put_room-IsRegistry ref room room' e (leave-members room k room' k f).0)
        | inr (x, f) ↦ rw (e, f, leave_at) v
      ]
    ]

    pub leave_at-rooms : (ref k : ℕ) → (leave_at ref k m).rooms ≡ m.rooms
    unfolding leave_at
    leave_at-rooms ref k = elim (Option-cases (get ref m.heap)) [
      | inl n ↦ rw (n, leave_at) refl
      | inr (room, e) ↦ elim (Result-cases (leave room k)) [
        | inl (room', f) ↦ rw (e, f, leave_at) refl
        | inr (x, f) ↦ rw (e, f, leave_at) refl
      ]
    ]

    members_at-leave_at :
        (ref k r j : ℕ)
        → members_at (leave_at ref k m).heap r j
          ≡ (if ref == r && k == j then false else members_at m.heap r j)
    unfolding leave_at
    members_at-leave_at ref k r j = elim (Option-cases (get ref m.heap)) [
      | inl n ↦ rw (n, leave_at) (ground (arith, n))
      | inr (room, e) ↦ elim (Result-cases (leave room k)) [
        | inl (room', f) ↦
            rw (e, f, leave_at)
              (ground (arith, e, get-put r ref room' m.heap, (leave-members room k room' j f).1))
        | inr (x, f) ↦ rw (e, f, leave_at) (ground (arith, e, leave-refused room k x f, ==_iff k j))
      ]
    ]

    pub in_room-leave_at :
        (id ref k i j : ℕ)
        → get id m.rooms ≡ some ref
        → in_room (leave_at ref k m) i j ≡ (if id == i && k == j then false else in_room m i j)
    unfolding in_room
    in_room-leave_at id ref k i j e = elim (Option-cases (get i m.rooms)) [
      | inl n ↦ rw (leave_at-rooms ref k) (ground (arith, n, e))
      | inr (r, f) ↦ rw (leave_at-rooms ref k) (
          ground (
            arith,
            e,
            f,
            members_at-leave_at ref k r j,
            (λ (h : ref ≡ r). same_ref id i ref e (rw h f)),
          ))
    ]

    pub leave_if_found-rooms : (id k : ℕ) → (leave_if_found id k m).rooms ≡ m.rooms
    unfolding leave_if_found
    leave_if_found-rooms id k = elim (Result-cases (get_room m id)) [
      | inl (ref, e) ↦ rw (e, leave_if_found) (leave_at-rooms ref k)
      | inr (x, e) ↦ rw (e, leave_if_found) refl
    ]

    pub leave_if_found-IsRegistry : (id k : ℕ) → IsRegistry (leave_if_found id k m)
    unfolding leave_if_found
    leave_if_found-IsRegistry id k = elim (Result-cases (get_room m id)) [
      | inl (ref, e) ↦ rw (e, leave_if_found) (leave_at-IsRegistry ref k)
      | inr (x, e) ↦ rw (e, leave_if_found) v
    ]

    pub in_room-leave_if_found :
        (id k i j : ℕ)
        → in_room (leave_if_found id k m) i j ≡ (if id == i && k == j then false else in_room m i j)
    unfolding leave_if_found in_room
    in_room-leave_if_found id k i j = elim (Result-cases (get_room m id)) [
      | inl (ref, e) ↦
          rw (e, leave_if_found) (in_room-leave_at id ref k i j (get_room-found m id ref e))
      | inr (x, e) ↦ rw (e, leave_if_found) (ground (arith, get_room-missing m id x e))
    ]

    module _ (get_conn_id : C → ℕ) (ref : ℕ) (c : C) (m' : RoomManager C) where
      -- A join that succeeds adds the connection to the one room.
      pub in_room-join_at :
          (id i j : ℕ)
          → get id m.rooms ≡ some ref
          → join_at get_conn_id ref c m ≡ ok m'
          → (get ref m.heap ≢ none)
          → in_room m' i j ≡ (if id == i && get_conn_id c == j then true else in_room m i j)
      unfolding join_at in_room
      in_room-join_at id i j e h there = elim (Option-cases (get ref m.heap)) [
        | inl n ↦ absurd (there n)
        | inr (room, f) ↦ elim (Result-cases (join get_conn_id room (some c))) [
          | inr (x, g) ↦ absurd (ground (arith, h, f, g))
          | inl (room', g) ↦
              let same : m' ≡ record m { heap = put ref room' m.heap } = ground (arith, h, f, g) in
              elim (Option-cases (get i m.rooms)) [
                | inl n ↦ rw same (ground (arith, n, e))
                | inr (r, q) ↦ rw same (
                    ground (
                      arith,
                      e,
                      f,
                      q,
                      get-put r ref room' m.heap,
                      (join-members get_conn_id room room' c j g).1,
                      (λ (t : ref ≡ r). same_ref id i ref e (rw t q)),
                    ))
              ]
        ]
      ]

      pub join_at-IsRegistry : join_at get_conn_id ref c m ≡ ok m' → IsRegistry m'
      unfolding join_at
      join_at-IsRegistry h = elim (Option-cases (get ref m.heap)) [
        | inl n ↦ subst IsRegistry (ground (arith, h, n)) v
        | inr (room, f) ↦ elim (Result-cases (join get_conn_id room (some c))) [
          | inr (x, g) ↦ absurd (ground (arith, h, f, g))
          | inl (room', g) ↦
              let same : record m { heap = put ref room' m.heap } ≡ m' = ground (arith, h, f, g) in
              subst IsRegistry same
                (put_room-IsRegistry ref room room' f (join-members get_conn_id room room' c 0 g).0)
        ]
      ]

      pub join_at-rooms : join_at get_conn_id ref c m ≡ ok m' → m'.rooms ≡ m.rooms
      unfolding join_at
      join_at-rooms h = elim (Option-cases (get ref m.heap)) [
        | inl n ↦ ground (arith, h, n)
        | inr (room, f) ↦ elim (Result-cases (join get_conn_id room (some c))) [
          | inr (x, g) ↦ absurd (ground (arith, h, f, g))
          | inl (room', g) ↦ ground (arith, h, f, g)
        ]
      ]

pub in_room-new : (C : Type 0) (i j : ℕ) → in_room (new_room_manager {C = C}) i j ≡ false
unfolding in_room
in_room-new C i j =
    ground (arith, get_empty i (new_room_manager {C = C}).rooms (new_room_manager_empty C))

module _ {C : Type 0} where
  -- A new room has no members, and no other room changes.
  pub in_room-create_room :
      (m m' : RoomManager C) (id ref : ℕ) (max : ℤ) (i j : ℕ)
      → IsRegistry m
      → create_room m id max ≡ ok (ref, m')
      → in_room m' i j ≡ in_room m i j
  unfolding in_room create_room
  in_room-create_room m m' id ref max i j v h =
      let new : get id m.rooms ≡ none = ground (arith, h) in
      let room = new_room {C = C} id max in
      let same : m' ≡ record {
        rooms = put id m.next_ref m.rooms;
        heap = put m.next_ref room m.heap;
        next_ref = suc m.next_ref;
      } =
        ground (arith, h, new) in
      rw same (elim (Option-cases (get i m.rooms)) [
        | inl n ↦ ground (
          arith,
          n,
          get-put i id m.next_ref m.rooms,
          get-put m.next_ref m.next_ref room m.heap,
          new_room-members {C = C} id max,
          get_empty j room.members (new_room-members {C = C} id max),
        )
        | inr (r, e) ↦ ground (
          arith,
          e,
          new,
          get-put i id m.next_ref m.rooms,
          get-put r m.next_ref room m.heap,
          v.named i r e,
          v.allocated r,
          (λ (t : i ≡ id). ap (λ (x : ℕ). get x m.rooms) t),
        )
      ])

  pub get-create_room :
      (m m' : RoomManager C) (id ref : ℕ) (max : ℤ) (k : ℕ)
      → create_room m id max ≡ ok (ref, m')
      → get k m'.rooms ≡ (if id == k then some ref else get k m.rooms)
  unfolding create_room
  get-create_room m m' id ref max k h = ground (arith, h, get-put k id m.next_ref m.rooms)
