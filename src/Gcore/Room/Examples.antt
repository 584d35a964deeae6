-- ===== src/Gcore/Room/Examples.antt =====
-- A room of connections that are their own identifiers, and the theorems on it.
use ginx.Prelude.{
  ℕ, ◌+◌, ◌≡◌, refl, subst, ◌&&◌, Option, none, some, List, [], ◌∷◌, map, if◌then◌else◌, ◌==◌,
  nat_eq, elem, ok, err, pos,
}
use ginx.GoMap.{get, put, delete, has}
use ginx.Sort.{sort, IsSorted}
use ginx.Gcore.Room.{
  Room, waiting, closed, new_room, join, leave, close, members_of, collect, broadcast_to, broadcast,
  room_full,
}
use ginx.Gcore.Room.Membership.{
  IsWf, RoomCall, joins, leaves, run, step, run-new_room-IsWf, leave-join,
}
use ginx.Gcore.Room.Broadcast.{deliver, is_recipient, broadcast_to-recipients}
use ginx.Gcore.Room.Manager.{RoomManager, remove_room}

abbrev own : ℕ → ℕ
own c = c

-- Sends are counted, and fail to connection 2.
abbrev send : ℕ → ℕ → List ℕ → ℕ → Option ℕ × ℕ
send c msg bytes n = (if c == 2 then some 99 else none, n + 1)

abbrev duo : Room ℕ
duo = record { id = 1; max_players = pos 2; state = waiting; members = (5, 5) ∷ (2, 2) ∷ [] }

abbrev duo_turned : Room ℕ
duo_turned = record duo { members = (2, 2) ∷ (5, 5) ∷ [] }

duo_full : join own duo (some 7) ≡ err room_full
unfolding join get
duo_full = refl

duo_members : members_of duo ≡ 2 ∷ 5 ∷ []
unfolding members_of collect get sort
duo_members = refl

duo-broadcast : broadcast own send duo 1 [] 0 ≡ (record { conn_id = 2; error = 99 } ∷ [], 2)
unfolding broadcast members_of collect get sort
duo-broadcast = refl

abbrev duo_calls : List (RoomCall ℕ)
duo_calls = joins (some 5) ∷ joins (some 2) ∷ leaves 9 ∷ []

duo_from_calls : run own (new_room 1 (pos 2)) duo_calls ≡ duo
unfolding run step new_room join leave get put
duo_from_calls = refl

duo-IsWf : IsWf own duo
duo-IsWf = subst (IsWf own) duo_from_calls (run-new_room-IsWf own 1 (pos 2) duo_calls)

run-new_room-IsWf_example : IsWf own (run own (new_room 1 (pos 2)) duo_calls)
run-new_room-IsWf_example = run-new_room-IsWf own 1 (pos 2) duo_calls

leave-join_example :
    (r'' : Room ℕ) × (leave duo 2 ≡ ok r'')
    × (r''.state ≡ waiting)
    × ((k : ℕ) → get k r''.members ≡ get k ((5, 5) ∷ []))
leave-join_example = leave-join own (record duo { members = (5, 5) ∷ [] }) 2 duo duo_joined
  where
    duo_joined : join own (record duo { members = (5, 5) ∷ [] }) (some 2) ≡ ok duo
    duo_joined = unfold join get put in refl

broadcast_to-recipients_example :
    (cs : List ℕ) × (broadcast_to own send duo 1 [] (some 5) 0 ≡ deliver own send 1 [] cs 0)
    × IsSorted (map own cs)
    × ((k : ℕ) → elem k (map own cs) ≡ (has k duo.members && is_recipient (some 5) k))
broadcast_to-recipients_example = broadcast_to-recipients own send duo 1 [] (some 5) 0 duo-IsWf

abbrev two_rooms : RoomManager ℕ
two_rooms = record {
  rooms = (1, 0) ∷ (4, 1) ∷ [];
  heap = (0, duo) ∷ (1, record { id = 4; max_players = pos 0; state = waiting; members = [] }) ∷ [];
  next_ref = 2;
}

abbrev one_left : RoomManager ℕ
one_left = record {
  rooms = (4, 1) ∷ [];
  heap =
      (0, record duo { state = closed; members = [] })
      ∷ (1, record { id = 4; max_players = pos 0; state = waiting; members = [] })
      ∷ [];
  next_ref = 2;
}

remove_room_run : remove_room two_rooms 1 ≡ ok one_left
unfolding remove_room close get put delete
remove_room_run = refl
