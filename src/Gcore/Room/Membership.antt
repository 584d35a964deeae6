-- ===== src/Gcore/Room/Membership.antt =====
-- What a room's operations keep, and what each does on every branch.
use ginx.Prelude.{
  ℕ, ◌≤◌, ◌<◌, ◌↔◌, true, false, List, [], ◌∷◌, Option, none, some, nat_eq, ℤ, is_positive, to_nat,
  Result, ok, err, ◌≡◌, ◌≢◌, refl, arith, ◌⊎◌,
}
use ginx.GoMap.{get, put, delete, has, size, IsUnique}
use ginx.GoMap.Laws.{
  get-put, get_empty, get-delete, size-put, put-IsUnique, delete-IsUnique, size-delete,
}
use ginx.Gcore.Room.{
  Room, RoomError, closed, is_closed, is_full, new_room, join, leave, start, close,
}

module _ {C : Type 0} (get_conn_id : C → ℕ) where
  -- Every member stands under its own identifier, once; the limit holds; a closed room is empty.
  pub record IsWf (r : Room C) : Type 0 where
    pub unique : IsUnique r.members
    pub keyed : (k : ℕ) (c : C) → get k r.members ≡ some c → get_conn_id c ≡ k
    pub bounded : is_positive r.max_players ≡ true → size r.members ≤ to_nat r.max_players
    pub empty_if_closed : r.state ≡ closed → r.members ≡ []

  pub new_room-IsWf : (id : ℕ) (max : ℤ) → IsWf (new_room id max)
  unfolding new_room get
  new_room-IsWf id max = record {
    unique = tt;
    keyed = λ k c e. cc;
    bounded = λ h. omega arith;
    empty_if_closed = λ h. refl;
  }

  -- Who is in the room after a join: the newcomer and whoever was in before, up to the limit.
  pub join_accepts :
      (r r' : Room C) (c : C)
      → join get_conn_id r (some c) ≡ ok r'
      → (is_closed r.state ≡ false)
        × (has (get_conn_id c) r.members ≡ false)
        × (is_full r.max_players r.members ≡ false)
        × (r' ≡ record r { members = put (get_conn_id c) c r.members })
  unfolding join
  join_accepts r r' c h = ground arith

  module _ (r : Room C) (w : IsWf r) where
    join-IsWf : (r' : Room C) (c : C) → join get_conn_id r (some c) ≡ ok r' → IsWf r'
    join-IsWf r' c h =
        let (open_yet, new, room_left, e) = join_accepts r r' c h in
        record {
          unique = ground (arith, e, put-IsUnique (get_conn_id c) c r.members w.unique);
          keyed = λ k d g. ground (arith, e, g, get-put k (get_conn_id c) c r.members, w.keyed k d);
          bounded = λ p.
              ground (arith, e, p, room_left, new, size-put (get_conn_id c) c r.members, w.bounded);
          empty_if_closed = λ p. ground (arith, e, p, open_yet);
        }

    leave-IsWf : (r' : Room C) (id : ℕ) → leave r id ≡ ok r' → IsWf r'
    unfolding leave
    leave-IsWf r' id h = record {
      unique = ground (arith, h, delete-IsUnique id r.members w.unique);
      keyed = λ k d g. ground (arith, h, g, get-delete k id r.members, w.keyed k d);
      bounded = λ p. ground (arith, h, p, size-delete id r.members w.unique, w.bounded);
      empty_if_closed = λ p. ground (arith, h, p, w.empty_if_closed, get_empty id r.members);
    }

    start-IsWf : (r' : Room C) → start r ≡ ok r' → IsWf r'
    unfolding start
    start-IsWf r' h = record {
      unique = ground (arith, h, w.unique);
      keyed = λ k d g. ground (arith, h, g, w.keyed k d);
      bounded = λ p. ground (arith, h, p, w.bounded);
      empty_if_closed = λ p. ground (arith, h, p);
    }

    close-IsWf : IsWf (close r)
    unfolding close get
    close-IsWf = record {
      unique = tt;
      keyed = λ k d g. cc;
      bounded = λ p. omega arith;
      empty_if_closed = λ p. refl;
    }

-- The calls that change a room.
pub data RoomCall (C : Type 0) : Type 0 where
  joins : Option C → RoomCall C
  leaves : ℕ → RoomCall C
  starts closes : RoomCall C

-- A call that fails leaves the room as it was.
abbrev pub after : {C : Type 0} → Room C → Result RoomError (Room C) → Room C
after r (ok r') = r'
after r (err e) = r

module _ {C : Type 0} (get_conn_id : C → ℕ) where
  unfoldable pub step : Room C → RoomCall C → Room C
  step r (joins c) = after r (join get_conn_id r c)
  step r (leaves id) = after r (leave r id)
  step r starts = after r (start r)
  step r closes = close r

  unfoldable pub run : Room C → List (RoomCall C) → Room C
  run r [] = r
  run r (c ∷ cs) = run (step r c) cs

  after-IsWf :
      (r : Room C) (x : Result RoomError (Room C))
      → IsWf get_conn_id r
      → ((r' : Room C) → x ≡ ok r' → IsWf get_conn_id r')
      → IsWf get_conn_id (after r x)
  after-IsWf r (ok r') w h = h r' refl
  after-IsWf r (err e) w h = w

  step-IsWf : (r : Room C) (c : RoomCall C) → IsWf get_conn_id r → IsWf get_conn_id (step r c)
  unfolding step
  step-IsWf r (joins none) w = unfold join in w
  step-IsWf r (joins (some c)) w = after-IsWf r _ w λ r' h. join-IsWf get_conn_id r w r' c h
  step-IsWf r (leaves id) w = after-IsWf r _ w λ r' h. leave-IsWf get_conn_id r w r' id h
  step-IsWf r starts w = after-IsWf r _ w λ r' h. start-IsWf get_conn_id r w r' h
  step-IsWf r closes w = close-IsWf get_conn_id r w

  run-IsWf :
      (r : Room C) (cs : List (RoomCall C)) → IsWf get_conn_id r → IsWf get_conn_id (run r cs)
  unfolding run
  run-IsWf r [] w = w
  run-IsWf r (c ∷ cs) w = run-IsWf (step r c) cs (step-IsWf r c w)

  -- After any calls on a new room each key is held once, each member stands under its own
  -- identifier, a positive limit is not exceeded, and a closed room has no member.
  pub run-new_room-IsWf :
      (id : ℕ) (max : ℤ) (cs : List (RoomCall C)) → IsWf get_conn_id (run (new_room id max) cs)
  run-new_room-IsWf id max cs = run-IsWf _ cs (new_room-IsWf get_conn_id id max)

  step_closed : (r : Room C) (c : RoomCall C) → r.state ≡ closed → (step r c).state ≡ closed
  unfolding step join leave start close
  step_closed r (joins none) h = h
  step_closed r (joins (some c)) h = ground arith
  step_closed r (leaves id) h = ground arith
  step_closed r starts h = ground arith
  step_closed r closes h = refl

  -- A closed room is closed after any calls.
  pub run_closed :
      (r : Room C) (cs : List (RoomCall C)) → r.state ≡ closed → (run r cs).state ≡ closed
  unfolding run
  run_closed r [] h = h
  run_closed r (c ∷ cs) h = run_closed (step r c) cs (step_closed r c h)

module _ {C : Type 0} (get_conn_id : C → ℕ) (r : Room C) (c : C) where
  -- A connection is let in exactly if the room is not closed, has no member of that identifier, and
  -- has no limit or is below it.
  pub join-ok_iff : ((r' : Room C) × (join get_conn_id r (some c) ≡ ok r')) ↔ (
      (r.state ≢ closed)
      × (get (get_conn_id c) r.members ≡ none)
      × ((is_positive r.max_players ≡ false) ⊎ (size r.members < to_nat r.max_players)))
  unfolding join
  join-ok_iff = (
    λ (r', h). ground arith,
    λ h. (record r { members = put (get_conn_id c) c r.members }, ground arith),
  )

  -- If a connection was let in, it can leave again, and the room then has the state and the
  -- members that it had before.
  pub leave-join :
      (r' : Room C)
      → join get_conn_id r (some c) ≡ ok r'
      → (r'' : Room C) × (leave r' (get_conn_id c) ≡ ok r'')
        × (r''.state ≡ r.state)
        × ((k : ℕ) → get k r''.members ≡ get k r.members)
  unfolding leave
  leave-join r' h =
      let (_, new, _, e) = join_accepts get_conn_id r r' c h in
      let id = get_conn_id c in
      (
        record r { members = delete id (put id c r.members) },
        ground (arith, e, get-put id id c r.members),
        refl,
        λ k. ground (arith, new, get-delete k id (put id c r.members), get-put k id c r.members),
      )
