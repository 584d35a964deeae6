-- ===== src/Gcore/Room.antt =====
-- gcore/room.go: a room and the room manager. What the rooms hold of a connection is its identifier
-- and `SendBuffMsg`; both are parameters, and a send may change the world `W` around it.
pub mod Members
pub mod Membership
pub mod Broadcast
pub mod Manager
pub mod Registry
pub mod Effects
mod Examples
use ginx.Prelude.{
  ℕ, suc, ◌≤◌, Bool, true, false, ◌&&◌, List, [], ◌∷◌, ◌++◌, Option, none, some, ltb, leb, ◌==◌,
  nat_eq, if◌then◌else◌, ℤ, is_positive, to_nat, Result, ok, err, reject, ◌>>=◌, ◌>>◌, String,
}
use ginx.GoMap.{GoMap, get, put, delete, has, keys, size}
use ginx.Sort.{sort}

pub data RoomState : Type 0 where
  waiting running closed : RoomState

-- `String` of a room's state.
unfoldable pub state_name : RoomState → String
state_name waiting = "waiting"
state_name running = "running"
state_name closed = "closed"

abbrev pub is_closed : RoomState → Bool
is_closed waiting = false
is_closed running = false
is_closed closed = true

pub data RoomError : Type 0 where
  nil_connection room_closed already_joined room_full not_in_room room_exists room_not_found :
      RoomError

pub record Room (C : Type 0) : Type 0 where
  pub id : ℕ
  pub max_players : ℤ
  pub state : RoomState
  pub members : GoMap ℕ C

-- A limit of 0 or below is none.
abbrev pub is_full {κ} : {C : Type κ} → ℤ → GoMap ℕ C → Bool
is_full max m = is_positive max && leb (to_nat max) (size m)

unfoldable pub new_room : {C : Type 0} → ℕ → ℤ → Room C
new_room id max = record { id = id; max_players = max; state = waiting; members = [] }

module _ {C : Type 0} (get_conn_id : C → ℕ) where
  -- A nil connection is `none`.
  unfoldable pub join : Room C → Option C → Result RoomError (Room C)
  join r none = err nil_connection
  join r (some connection) = do
    reject (is_closed r.state) room_closed
    reject (has (get_conn_id connection) r.members) already_joined
    reject (is_full r.max_players r.members) room_full
    ok (record r { members = put (get_conn_id connection) connection r.members })

module _ {C : Type 0} where
  unfoldable pub leave : Room C → ℕ → Result RoomError (Room C)
  leave r conn_id =
      if has conn_id r.members
      then ok (record r { members = delete conn_id r.members })
      else err not_in_room

  pub start : Room C → Result RoomError (Room C)
  start r = do reject (is_closed r.state) room_closed; ok (record r { state = running })

  pub close : Room C → Room C
  close r = record r { state = closed; members = [] }

  unfoldable pub player_count : Room C → ℕ
  player_count r = size r.members

  -- `connections[connID]` for each identifier in turn. The identifiers are the map's keys, so no
  -- lookup misses.
  pub collect : GoMap ℕ C → List ℕ → List C
  collect m [] = []
  collect m (id ∷ ids) = elim (get id m) [ some c ↦ c ∷ collect m ids | none ↦ collect m ids ]

  -- The members in ascending order of their identifiers.
  pub members_of : Room C → List C
  members_of r = collect r.members (sort (keys r.members))

pub record BroadcastError (E : Type 0) : Type 0 where
  pub conn_id : ℕ
  pub error : E

module _ {C W E : Type 0} (get_conn_id : C → ℕ)
    (send_buff_msg : C → ℕ → List ℕ → W → Option E × W) where
  abbrev note_error : ℕ → Option E → List (BroadcastError E) → List (BroadcastError E)
  note_error id none es = es
  note_error id (some e) es = es ++ record { conn_id = id; error = e } ∷ []

  -- One round of the loop: a send, unless the connection is the excluded one.
  send_to : ℕ → List ℕ → Option ℕ → C → List (BroadcastError E) × W → List (BroadcastError E) × W
  send_to msg_id bytes none c (es, w) =
      let (e, w') = send_buff_msg c msg_id bytes w in (note_error (get_conn_id c) e es, w')
  send_to msg_id bytes (some excluded) c (es, w) =
      let (e, w') = send_buff_msg c msg_id bytes w in
      if get_conn_id c == excluded then (es, w) else (note_error (get_conn_id c) e es, w')

  send_loop :
      ℕ → List ℕ → Option ℕ → List C → List (BroadcastError E) × W → List (BroadcastError E) × W
  unfolding send_to
  send_loop msg_id bytes exclude [] s = s
  send_loop msg_id bytes exclude (c ∷ cs) s =
      send_loop msg_id bytes exclude cs (send_to msg_id bytes exclude c s)

  -- `exclude` is none for `Broadcast`, and the connection left out for `BroadcastExcept`.
  pub broadcast_to : Room C → ℕ → List ℕ → Option ℕ → W → List (BroadcastError E) × W
  unfolding send_loop
  broadcast_to r msg_id bytes exclude w = send_loop msg_id bytes exclude (members_of r) ([], w)

  pub broadcast : Room C → ℕ → List ℕ → W → List (BroadcastError E) × W
  unfolding broadcast_to
  broadcast r msg_id bytes w = broadcast_to r msg_id bytes none w

  pub broadcast_except : Room C → ℕ → ℕ → List ℕ → W → List (BroadcastError E) × W
  unfolding broadcast_to
  broadcast_except r excluded msg_id bytes w = broadcast_to r msg_id bytes (some excluded) w
