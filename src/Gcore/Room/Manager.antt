-- ===== src/Gcore/Room/Manager.antt =====
-- RoomManager. A room is shared by pointer, so the rooms stand on a heap, and the manager and its
-- callers hold references.
use ginx.Prelude.{
  ℕ, suc, ◌≤◌, ◌≡◌, refl, inl, inr, Option, none, some, [], arith, if◌then◌else◌, ◌==◌, nat_eq,
  Option-cases, Result, ok, err, ◌>>=◌, ◌>>◌, reject, or_fail, ℤ,
}
use ginx.GoMap.{GoMap, get, put, delete, has, size, IsUnique}
use ginx.GoMap.Laws.{get-put, get-delete, put-IsUnique, delete-IsUnique}
use ginx.Gcore.Room.{
  Room, RoomError, new_room, close, join, room_closed, room_exists, room_not_found,
}

pub record RoomManager (C : Type 0) : Type 0 where
  pub rooms : GoMap ℕ ℕ
  pub heap : GoMap ℕ (Room C)
  pub next_ref : ℕ

module _ {C : Type 0} where
  unfoldable pub new_room_manager : RoomManager C
  new_room_manager = record { rooms = []; heap = []; next_ref = 0 }

  -- The new room's reference, and the manager that has it.
  unfoldable pub create_room : RoomManager C → ℕ → ℤ → Result RoomError (ℕ × RoomManager C)
  create_room m room_id max_players = do
    reject (has room_id m.rooms) room_exists
    ok (
      m.next_ref,
      record {
        rooms = put room_id m.next_ref m.rooms;
        heap = put m.next_ref (new_room room_id max_players) m.heap;
        next_ref = suc m.next_ref;
      },
    )

  unfoldable pub get_room : RoomManager C → ℕ → Result RoomError ℕ
  get_room m room_id = or_fail (get room_id m.rooms) room_not_found

  pub get_room-found :
      (m : RoomManager C) (id ref : ℕ) → get_room m id ≡ ok ref → get id m.rooms ≡ some ref
  unfolding get_room
  get_room-found m id ref h = elim (Option-cases (get id m.rooms)) [
    | inl n ↦ absurd (ground (arith, h, n))
    | inr (r, e) ↦ ground (arith, h, e)
  ]

  pub get_room-missing :
      (m : RoomManager C) (id : ℕ) (x : RoomError) → get_room m id ≡ err x → get id m.rooms ≡ none
  unfolding get_room
  get_room-missing m id x h = elim (Option-cases (get id m.rooms)) [
    | inl n ↦ n
    | inr (r, e) ↦ absurd (ground (arith, h, e))
  ]

  -- `room.Close()`, through the reference.
  close_at : ℕ → GoMap ℕ (Room C) → GoMap ℕ (Room C)
  close_at ref heap = elim (get ref heap) [ none ↦ heap | some room ↦ put ref (close room) heap ]

  unfoldable pub remove_room : RoomManager C → ℕ → Result RoomError (RoomManager C)
  unfolding close_at
  remove_room m room_id = do
    ref ← or_fail (get room_id m.rooms) room_not_found
    ok (record m { rooms = delete room_id m.rooms; heap = close_at ref m.heap })

  pub len : RoomManager C → ℕ
  len m = size m.rooms

  -- The identifier of the room behind a reference.
  abbrev pub id_at : ℕ → GoMap ℕ (Room C) → Option ℕ
  id_at ref heap = elim (get ref heap) [ none ↦ none | some room ↦ some room.id ]

  -- Each registered reference is allocated, to the room of that identifier.
  pub record IsRegistry (m : RoomManager C) : Type 0 where
    pub unique : IsUnique m.rooms
    pub allocated : (ref : ℕ) → m.next_ref ≤ ref → get ref m.heap ≡ none
    pub named : (id ref : ℕ) → get id m.rooms ≡ some ref → id_at ref m.heap ≡ some id

  pub new_room_manager-IsRegistry : IsRegistry new_room_manager
  unfolding new_room_manager get
  new_room_manager-IsRegistry = record {
    unique = tt;
    allocated = λ ref h. refl;
    named = λ id ref h. cc;
  }

  -- A room that is created in a well-formed registry leaves it well-formed: its identifiers are
  -- held once and lead to rooms of that identifier, at references that were handed out.
  pub create_room-IsRegistry :
      (m m' : RoomManager C) (id ref : ℕ) (max : ℤ)
      → IsRegistry m
      → create_room m id max ≡ ok (ref, m')
      → IsRegistry m'
  unfolding create_room new_room
  create_room-IsRegistry m m' id ref max v h =
      let room : Room C = new_room id max in
      let same : m' ≡ record {
        rooms = put id m.next_ref m.rooms;
        heap = put m.next_ref room m.heap;
        next_ref = suc m.next_ref;
      } =
        ground (arith, h) in
      record {
        unique = ground (arith, same, put-IsUnique id m.next_ref m.rooms v.unique);
        allocated = λ k l. ground (arith, same, l, get-put k m.next_ref room m.heap, v.allocated k);
        named = λ k r e. ground (
          arith,
          same,
          e,
          get-put k id m.next_ref m.rooms,
          get-put r m.next_ref room m.heap,
          v.named k r,
          v.allocated m.next_ref,
        );
      }

  -- A room that is removed from a well-formed registry leaves it well-formed.
  pub remove_room-IsRegistry :
      (m m' : RoomManager C) (id : ℕ) → IsRegistry m → remove_room m id ≡ ok m' → IsRegistry m'
  unfolding remove_room close
  remove_room-IsRegistry m m' id v h = elim (Option-cases (get id m.rooms)) [
    | inl missing ↦ absurd (ground (arith, h, missing))
    | inr (ref, e) ↦ elim (Option-cases (get ref m.heap)) [
      | inl lost ↦ absurd (ground (arith, lost, v.named id ref e))
      | inr (room, f) ↦
          let same : m'
              ≡ record m { rooms = delete id m.rooms; heap = put ref (close room) m.heap } =
            ground (arith, e, f, h) in
          record {
            unique = ground (arith, same, delete-IsUnique id m.rooms v.unique);
            allocated =
                λ k l. ground (arith, same, l, f, get-put k ref (close room) m.heap, v.allocated k);
            named = λ k r g. ground (
              arith,
              same,
              g,
              f,
              get-delete k id m.rooms,
              get-put r ref (close room) m.heap,
              v.named k r,
            );
          }
    ]
  ]

  -- A removal frees the identifier and leaves all other identifiers as they were; the removed
  -- room is closed for whoever still holds it, and lets nobody in, and every other room is as it
  -- was.
  pub remove_room_closes :
      (m m' : RoomManager C) (id ref : ℕ) (room : Room C)
      → get id m.rooms ≡ some ref
      → get ref m.heap ≡ some room
      → remove_room m id ≡ ok m'
      → ((get_conn_id : C → ℕ) (c : C) → join get_conn_id (close room) (some c) ≡ err room_closed)
        × ((k : ℕ) → get_room m' k ≡ (if id == k then err room_not_found else get_room m k))
        × ((k : ℕ) → get k m'.heap ≡ (if ref == k then some (close room) else get k m.heap))
  unfolding remove_room close join get_room
  remove_room_closes m m' id ref room e f h =
      let same : m' ≡ record m { rooms = delete id m.rooms; heap = put ref (close room) m.heap } =
        ground (arith, e, f, h) in
      (
        λ get_conn_id c. refl,
        λ k. ground (arith, same, get-delete k id m.rooms),
        λ k. ground (arith, same, get-put k ref (close room) m.heap),
      )

pub new_room_manager_empty : (C : Type 0) → (new_room_manager {C = C}).rooms ≡ []
unfolding new_room_manager
new_room_manager_empty C = refl
