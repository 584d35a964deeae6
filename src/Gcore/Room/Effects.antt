-- ===== src/Gcore/Room/Effects.antt =====
-- What joining and leaving change of a room: the one member, and nothing else.
use ginx.Prelude.{
  ℕ, ◌≡◌, refl, true, false, some, [], arith, if◌then◌else◌, ◌==◌, nat_eq, string_eq, ok, err, ℤ,
  int_eq,
}
use ginx.GoMap.{has}
use ginx.GoMap.Laws.{get-put, get-delete}
use ginx.Gcore.Room.{Room, RoomError, new_room, join, leave}

module _ {C : Type 0} (get_conn_id : C → ℕ) (r r' : Room C) where
  pub join-members :
      (c : C) (k : ℕ)
      → join get_conn_id r (some c) ≡ ok r'
      → (r'.id ≡ r.id) × (has k r'.members ≡ (if get_conn_id c == k then true else has k r.members))
  unfolding join
  join-members c k h = ground (arith, h, get-put k (get_conn_id c) c r.members)

module _ {C : Type 0} (r : Room C) (id : ℕ) where
  pub leave-members :
      (r' : Room C) (k : ℕ)
      → leave r id ≡ ok r'
      → (r'.id ≡ r.id) × (has k r'.members ≡ (if id == k then false else has k r.members))
  unfolding leave
  leave-members r' k h = ground (arith, h, get-delete k id r.members)

  pub leave-refused : (x : RoomError) → leave r id ≡ err x → has id r.members ≡ false
  unfolding leave
  leave-refused x h = ground (arith, h)

pub new_room-members : {C : Type 0} (id : ℕ) (max : ℤ) → (new_room {C = C} id max).members ≡ []
unfolding new_room
new_room-members id max = refl
