-- ===== src/Gameapp/Service/History.antt =====
-- Whatever calls a new service has had.
use ginx.Prelude.{
  ℕ, String, ◌≡◌, Bool, true, false, not, ◌&&◌, Option, none, some, List, arith, ◌==◌, nat_eq,
  string_eq, Option-cases, ok, ℤ, int_eq,
}
use ginx.GoMap.{get}
use ginx.Persist.Memory.{Context}
use ginx.Gameapp.Service.{Account, PlayerStore, Service, RoomView, connected, disconnected}
use ginx.Gameapp.Service.Setup.{RoomConfig, new_service}
use ginx.Gameapp.Service.Requests.{authenticate, join_room, leave_room}
use ginx.Gameapp.Service.Login.{login}
use ginx.Gameapp.Service.Closing.{sweep, close_service}
use ginx.Gameapp.Service.Seats.{in_room, sits}
use ginx.Gameapp.Service.Steps.{IsSeated, disconnect_locked-IsSeated, connected-IsSeated}
use ginx.Gameapp.Service.Seating.{authenticate-IsSeated, leave_room-IsSeated, join_room-IsSeated}
use ginx.Gameapp.Service.Keeping.{sweep-IsSeated, close_service-IsSeated, login-IsSeated}
use ginx.Gameapp.Service.Started.{new_service-IsSeated}

module _ {C S E : Type 0} (get_conn_id : C → ℕ) (players : PlayerStore S E) where
  -- One call on the service that succeeds or changes it, under the lock. The framework gives a new
  -- connection an identifier that is not in use.
  pub data Step : Service C S → Service C S → Type 0 where
    connects :
        (s : Service C S) (c : C) (now : ℕ)
        → get (get_conn_id c) s.connections ≡ none
        → Step s (connected get_conn_id s c now)
    disconnects : (s : Service C S) (c : C) → Step s (disconnected get_conn_id s c)
    authenticates :
        (s s' : Service C S) (k : ℕ) (token : String) (now now' later player : ℕ)
        → authenticate {E = E} s k token now now' later ≡ ok (player, s')
        → Step s s'
    joins :
        (s s' : Service C S) (k room_id now : ℕ) (view : RoomView)
        → join_room {E = E} get_conn_id s k room_id now ≡ ok (view, s')
        → Step s s'
    leaves : (s s' : Service C S) (k now : ℕ) → leave_room {E = E} s k now ≡ ok s' → Step s s'
    logs_in :
        (s : Service C S) (same_password : String → String → Bool) (ctx : Context)
        (account_id password token : String) (now now' : ℕ)
        → Step s (login players same_password s ctx account_id password token now now').1
    sweeps : (s : Service C S) (now : ℕ) → Step s (sweep s now)
    closes : (s : Service C S) → Step s (close_service s)

  pub data Reach : Service C S → Service C S → Type 0 where
    done : (s : Service C S) → Reach s s
    more : (s t u : Service C S) → Step s t → Reach t u → Reach s u

  Step-IsSeated : {s t : Service C S} → Step s t → IsSeated get_conn_id s → IsSeated get_conn_id t
  Step-IsSeated (connects s c now new) v = connected-IsSeated get_conn_id s v c now new
  Step-IsSeated (disconnects s c) v =
      unfold disconnected in disconnect_locked-IsSeated get_conn_id s v (get_conn_id c) false
  Step-IsSeated (authenticates s t k token now now' later player h) v =
      authenticate-IsSeated get_conn_id s v k token now now' later player t h
  Step-IsSeated (joins s t k room_id now view h) v =
      join_room-IsSeated get_conn_id s v k room_id now view t h
  Step-IsSeated (leaves s t k now h) v = leave_room-IsSeated get_conn_id s v k now t h
  Step-IsSeated (logs_in s same_password ctx account_id password token now now') v =
      login-IsSeated get_conn_id players same_password s ctx account_id password token now now' v
  Step-IsSeated (sweeps s now) v = sweep-IsSeated get_conn_id s now v
  Step-IsSeated (closes s) v = close_service-IsSeated get_conn_id s v

  Reach-IsSeated : {s t : Service C S} → Reach s t → IsSeated get_conn_id s → IsSeated get_conn_id t
  Reach-IsSeated (done s) v = v
  Reach-IsSeated (more s t u step rest) v = Reach-IsSeated rest (Step-IsSeated step v)

module _ {C S E : Type 0} (get_conn_id : C → ℕ) (hash_cost : String → Option ℕ) where
  -- Whatever calls a service has had since it was set up, a connection is a member of exactly the room
  -- that it is noted in, and so of one room at most, and whoever is a member of a room is connected.
  pub Reach-seated :
      (players : PlayerStore S E) (accounts : List Account) (store : S) (ttl : ℤ)
      (rooms : List RoomConfig) (s t : Service C S)
      → new_service {E = E} hash_cost accounts (some store) ttl rooms ≡ ok s
      → Reach get_conn_id players s t
      → ((id k : ℕ) → in_room t.rooms id k ≡ (not (id == 0) && sits id (get k t.connections)))
        × ((i j k : ℕ) → in_room t.rooms i k ≡ true → in_room t.rooms j k ≡ true → i ≡ j)
  Reach-seated players accounts store ttl rooms s t h r =
      let v =
        Reach-IsSeated get_conn_id players r
          (new_service-IsSeated get_conn_id hash_cost accounts store ttl rooms s h) in
      (
        v.seated,
        λ i j k e f.
            ground (arith, e, f, v.seated i k, v.seated j k, Option-cases (get k t.connections)),
      )
