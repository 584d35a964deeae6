-- ===== src/Gameapp/Service/Setup.antt =====
-- examples/gameapp/service.go: New. `hash_cost` is bcrypt.Cost, none for its error; bcrypt.MinCost is 4.
use ginx.Prelude.{
  ℕ, String, Bool, true, false, not, ◌&&◌, ◌||◌, Option, none, some, List, [], ◌∷◌, ◌++◌, ltb, leb,
  ◌==◌, nat_eq, string_eq, length, Result, ok, err, ◌>>=◌, ◌>>◌, reject, ℤ, int_eq, is_positive,
}
use ginx.GoMap.{GoMap, put, has}
use ginx.Sort.{sort}
use Prim.Native.String.{len as len_bytes}
use ginx.Session.{new_manager, replace_existing}
use ginx.Gcore.Room.Manager.{new_room_manager, create_room}
use ginx.Gameapp.Service.{
  Account, Service, ServiceError, bad_arguments, invalid_account, duplicate_account, bad_hash,
  bad_room, of_room,
}

pub record RoomConfig : Type 0 where
  pub id : ℕ
  pub max_players : ℤ

abbrev pub cost_allowed : Option ℕ → Bool
cost_allowed none = false
cost_allowed (some cost) = leb 4 cost && leb cost 14

module _ {C S E : Type 0} (hash_cost : String → Option ℕ) where
  -- The loop over the accounts, with the players seen so far.
  unfoldable pub add_accounts :
      List Account → GoMap ℕ Bool → Service C S → Result (ServiceError E) (Service C S)
  add_accounts [] players s = ok s
  add_accounts (account ∷ rest) players s = do
    reject
        (account.account_id == ""
          || ltb 128 (len_bytes account.account_id)
          || account.player_id == 0
          || has account.player_id players)
        invalid_account
    reject (has account.account_id s.accounts) duplicate_account
    reject (not (cost_allowed (hash_cost account.password_hash))) bad_hash
    add_accounts rest (put account.player_id true players) (record s {
      accounts = put account.account_id account s.accounts;
      dummy_hash = account.password_hash;
    })

  unfoldable pub add_rooms : List RoomConfig → Service C S → Result (ServiceError E) (Service C S)
  add_rooms [] s = ok s
  add_rooms (room ∷ rest) s = do
    reject (room.id == 0 || not (is_positive room.max_players)) bad_room
    elim (create_room s.rooms room.id room.max_players) [
      | err x ↦ err (of_room x)
      | ok (ref, rooms) ↦
          add_rooms rest (record s { rooms = rooms; room_ids = s.room_ids ++ (room.id ∷ []) })
    ]

  unfoldable pub new_service :
      List Account → Option S → ℤ → List RoomConfig → Result (ServiceError E) (Service C S)
  unfolding add_accounts add_rooms
  new_service accounts none ttl rooms = err bad_arguments
  new_service accounts (some store) ttl rooms = do
    reject (length accounts == 0 || not (is_positive ttl)) bad_arguments
    s ← add_accounts accounts [] (record {
      accounts = [];
      dummy_hash = "";
      sessions = new_manager replace_existing none;
      store = store;
      rooms = new_room_manager;
      room_ids = [];
      connections = [];
      ttl = ttl;
      closed = false;
      stopped = [];
    })
    s' ← add_rooms rooms s
    ok (record s' { room_ids = sort s'.room_ids })
