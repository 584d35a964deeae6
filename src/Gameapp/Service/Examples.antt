-- ===== src/Gameapp/Service/Examples.antt =====
-- A player who logs in, connects and joins a room, and the theorems on that.
use ginx.Prelude.{
  ℕ, ◌*◌, ◌^◌, String, ◌≡◌, refl, Bool, true, false, not, ◌&&◌, Option, none, some, List, [], ◌∷◌,
  ◌==◌, nat_eq, string_eq, Result, ok, err, pos, int_eq,
}
use ginx.GoMap.{get, put}
use ginx.GoMap.Laws.{get_empty}
use ginx.Sort.{sort}
use ginx.GoMap.Laws.{get_empty}
use ginx.Persist.Memory.{MemoryStore, live, load, save}
use ginx.Session.{
  new_manager, replace_existing, issue, bind, get_by_conn_id, enter, replace_account, player_guard,
}
use ginx.Gcore.Room.{new_room, join, leave, player_count, state_name}
use ginx.Gcore.Room.Manager.{new_room_manager, create_room, get_room}
use ginx.Gameapp.Service.{
  Account, PlayerStore, Service, ServiceError, ConnectedPlayer, RoomView, connected,
  authenticated_locked, join_at, leave_at, leave_if_found, view_at, room_view,
}
use ginx.Gameapp.Service.Setup.{RoomConfig, new_service, add_accounts, add_rooms}
use ginx.Gameapp.Service.Login.{login, login_locked, load_or_create, is_refused}
use ginx.Gameapp.Service.Requests.{authenticate, join_room}
use ginx.Gameapp.Service.Closing.{sweep}
use ginx.Gameapp.Service.Seats.{in_room, sits}
use ginx.Gameapp.Service.History.{
  Reach, done, more, connects, logs_in, authenticates, joins, Reach-seated,
}
use ginx.Gameapp.Service.Ending.{IsGone, sweep-ends}

abbrev memory : PlayerStore MemoryStore String
memory = record { load = load; save = save }

abbrev accounts : List Account
accounts = record { account_id = "ann"; player_id = 1001; password_hash = "hash" } ∷ []

abbrev rooms : List RoomConfig
rooms = record { id = 1; max_players = pos 2 } ∷ record { id = 2; max_players = pos 2 } ∷ []

abbrev ten : String → Option ℕ
ten hash = some 10

abbrev matches : String → String → Bool
matches hash password = hash == "hash" && password == "secret"

abbrev own : ℕ → ℕ
own c = c

-- The service that a call leaves.
abbrev after :
    {A : Type 0}
    → Result (ServiceError String) (A × Service ℕ MemoryStore)
    → Service ℕ MemoryStore
    → Service ℕ MemoryStore
after (ok (a, s)) before = s
after (err e) before = before

abbrev fresh : Service ℕ MemoryStore
fresh = record {
  accounts = ("ann", record { account_id = "ann"; player_id = 1001; password_hash = "hash" }) ∷ [];
  dummy_hash = "hash";
  sessions = new_manager replace_existing none;
  store = [];
  rooms = record {
    rooms = (1, 0) ∷ (2, 1) ∷ [];
    heap = (0, new_room 1 (pos 2)) ∷ (1, new_room 2 (pos 2)) ∷ [];
    next_ref = 2;
  };
  room_ids = 1 ∷ 2 ∷ [];
  connections = [];
  ttl = pos 1000;
  closed = false;
  stopped = [];
}

fresh_new : new_service {E = String} ten accounts (some []) (pos 1000) rooms ≡ ok fresh
unfolding new_service add_accounts add_rooms create_room new_room_manager get put sort
fresh_new = refl

abbrev online : Service ℕ MemoryStore
online = connected own fresh 5 0

abbrev logged_in : Service ℕ MemoryStore
logged_in = (login memory matches online live "ann" "secret" "token" 10 10).1

abbrev named : Service ℕ MemoryStore
named = after (authenticate {E = String} logged_in 5 "token" 20 20 20) logged_in

abbrev seated : Service ℕ MemoryStore
seated = after (join_room {E = String} own named 5 1 30) named

abbrev first_room : RoomView
first_room = record { id = 1; max_players = pos 2; players = 1; state = "waiting" }

named_ok : authenticate {E = String} logged_in 5 "token" 20 20 20 ≡ ok (1001, named)
unfolding connected login login_locked is_refused load_or_create authenticate new_manager issue
    player_guard replace_account enter bind get put load save
named_ok = refl

seated_ok : join_room {E = String} own named 5 1 30 ≡ ok (first_room, seated)
unfolding connected login login_locked is_refused load_or_create authenticate new_manager issue
    player_guard replace_account enter bind get put load save join_room authenticated_locked
    get_by_conn_id get_room join_at join leave_if_found leave_at leave view_at room_view
    player_count state_name new_room
seated_ok = refl

path : Reach own memory fresh seated
path = more fresh online seated (connects fresh 5 0 (get_empty {V = ConnectedPlayer ℕ} 5 [] refl)) (
    more online logged_in seated (logs_in online matches live "ann" "secret" "token" 10 10) (
      more logged_in named seated (authenticates logged_in named 5 "token" 20 20 20 1001 named_ok)
        (more named seated seated (joins named seated 5 1 30 first_room seated_ok) (done seated))))

Reach-seated_example :
    ((id k : ℕ) → in_room seated.rooms id k ≡ (not (id == 0) && sits id (get k seated.connections)))
    × ((i j k : ℕ) → in_room seated.rooms i k ≡ true → in_room seated.rooms j k ≡ true → i ≡ j)
Reach-seated_example =
    Reach-seated own ten memory accounts [] (pos 1000) rooms fresh seated fresh_new path

abbrev stranger : ConnectedPlayer ℕ
stranger = record { connection = 5; room_id = 0; auth_deadline = 30 * 10 ^ 9 }

stranger_there : get 5 online.connections ≡ some stranger
unfolding connected get put
stranger_there = refl

sweep-ends_example : IsGone 5 5 (sweep online (30 * 10 ^ 9))
sweep-ends_example = sweep-ends online (30 * 10 ^ 9) 5 stranger stranger_there refl
