-- ===== src/Gcore/Room/Registry.antt =====
-- The registry of rooms over any calls.
use ginx.Prelude.{ℕ, inl, inr, List, [], ◌∷◌, Result, ok, err, Result-cases, ℤ}
use ginx.Gcore.Room.{RoomError}
use ginx.Gcore.Room.Manager.{
  RoomManager, new_room_manager, create_room, remove_room, IsRegistry, new_room_manager-IsRegistry,
  create_room-IsRegistry, remove_room-IsRegistry,
}

pub data RegistryCall : Type 0 where
  creates : ℕ → ℤ → RegistryCall
  removes : ℕ → RegistryCall

module _ {C : Type 0} where
  -- A call that fails leaves the manager as it was.
  abbrev after_create : RoomManager C → Result RoomError (ℕ × RoomManager C) → RoomManager C
  after_create m (ok (ref, m')) = m'
  after_create m (err e) = m

  abbrev after_remove : RoomManager C → Result RoomError (RoomManager C) → RoomManager C
  after_remove m (ok m') = m'
  after_remove m (err e) = m

  unfoldable pub step : RoomManager C → RegistryCall → RoomManager C
  step m (creates id max) = after_create m (create_room m id max)
  step m (removes id) = after_remove m (remove_room m id)

  unfoldable pub run : RoomManager C → List RegistryCall → RoomManager C
  run m [] = m
  run m (c ∷ cs) = run (step m c) cs

  step-IsRegistry : (m : RoomManager C) (c : RegistryCall) → IsRegistry m → IsRegistry (step m c)
  unfolding step
  step-IsRegistry m (creates id max) v = elim (Result-cases (create_room m id max)) [
    | inl ((ref, m'), e) ↦ rw e (create_room-IsRegistry m m' id ref max v e)
    | inr (x, e) ↦ rw e v
  ]
  step-IsRegistry m (removes id) v = elim (Result-cases (remove_room m id)) [
    | inl (m', e) ↦ rw e (remove_room-IsRegistry m m' id v e)
    | inr (x, e) ↦ rw e v
  ]

  run-IsRegistry :
      (m : RoomManager C) (cs : List RegistryCall) → IsRegistry m → IsRegistry (run m cs)
  unfolding run
  run-IsRegistry m [] v = v
  run-IsRegistry m (c ∷ cs) v = run-IsRegistry (step m c) cs (step-IsRegistry m c v)

  -- After any calls on a new manager each identifier is held once and leads to a room of that
  -- identifier, and no reference is in use that was not handed out.
  pub run-new_room_manager-IsRegistry :
      (cs : List RegistryCall) → IsRegistry (run (new_room_manager {C = C}) cs)
  run-new_room_manager-IsRegistry cs =
      run-IsRegistry new_room_manager cs new_room_manager-IsRegistry
