-- ===== src/Gameapp/Service/Started.antt =====
-- The seats of a service that was just set up are right.
use ginx.Prelude.{
  ℕ, String, ◌≡◌, refl, subst, inl, inr, Bool, true, false, Option, none, some, List, [], ◌∷◌, ◌++◌,
  arith, nat_eq, string_eq, ok, Result-cases, ℤ, int_eq,
}
use ginx.GoMap.{GoMap, get, put}
use ginx.GoMap.Laws.{get_empty}
use ginx.Sort.{sort}
use ginx.Session.{new_manager, replace_existing}
use ginx.Gcore.Room.Manager.{
  create_room, create_room-IsRegistry, new_room_manager, new_room_manager_empty,
  new_room_manager-IsRegistry,
}
use ginx.Gameapp.Service.{Account, Service, ConnectedPlayer}
use ginx.Gameapp.Service.Setup.{RoomConfig, add_accounts, add_rooms, new_service}
use ginx.Gameapp.Service.Seats.{in_room-new, in_room-create_room, get-create_room}
use ginx.Gameapp.Service.Steps.{IsSeated}
use ginx.Gameapp.Service.Keeping.{update-IsSeated}

module _ {C S E : Type 0} (get_conn_id : C → ℕ) (hash_cost : String → Option ℕ) where
  add_accounts-IsSeated :
      (accounts : List Account) (seen : GoMap ℕ Bool) (s s' : Service C S)
      → add_accounts {E = E} hash_cost accounts seen s ≡ ok s'
      → IsSeated get_conn_id s
      → IsSeated get_conn_id s'
  unfolding add_accounts
  add_accounts-IsSeated [] seen s s' h v = subst (IsSeated get_conn_id) (ground (arith, h)) v
  add_accounts-IsSeated (account ∷ rest) seen s s' h v =
      let next : Service C S = record s {
        accounts = put account.account_id account s.accounts;
        dummy_hash = account.password_hash;
      } in
      add_accounts-IsSeated rest (put account.player_id true seen) next s' (ground (arith, h))
        (update-IsSeated get_conn_id s next refl refl v)

  add_rooms-IsSeated :
      (rooms : List RoomConfig) (s s' : Service C S)
      → add_rooms {E = E} hash_cost rooms s ≡ ok s'
      → IsSeated get_conn_id s
      → IsSeated get_conn_id s'
  unfolding add_rooms
  add_rooms-IsSeated [] s s' h v = subst (IsSeated get_conn_id) (ground (arith, h)) v
  add_rooms-IsSeated (room ∷ rest) s s' h v =
      elim (Result-cases (create_room s.rooms room.id room.max_players)) [
        | inr (x, e) ↦ absurd (ground (arith, h, e))
        | inl ((ref, rooms), e) ↦
            let next : Service C S = record s {
              rooms = rooms;
              room_ids = s.room_ids ++ (room.id ∷ []);
            } in
            add_rooms-IsSeated rest next s' (ground (arith, h, e)) (record {
              registry =
                  create_room-IsRegistry s.rooms rooms room.id ref room.max_players v.registry e;
              no_zero = ground (
                arith,
                h,
                v.no_zero,
                get-create_room s.rooms rooms room.id ref room.max_players 0 e,
              );
              owned = v.owned;
              seated = λ i j. ground (
                arith,
                v.seated i j,
                in_room-create_room s.rooms rooms room.id ref room.max_players i j v.registry e,
              );
            })
      ]

  pub new_service-IsSeated :
      (accounts : List Account) (store : S) (ttl : ℤ) (rooms : List RoomConfig) (s : Service C S)
      → new_service {E = E} hash_cost accounts (some store) ttl rooms ≡ ok s
      → IsSeated get_conn_id s
  unfolding new_service
  new_service-IsSeated accounts store ttl rooms s h =
      let blank : Service C S = record {
        accounts = [];
        dummy_hash = "";
        sessions = new_manager replace_existing none;
        store = store;
        rooms = new_room_manager;
        room_ids = [];
        connections = [];
        ttl = ttl;
        closed = false;
        stopped = [];
      } in
      let none_in : (k : ℕ) → get {V = ConnectedPlayer C} k [] ≡ none =
        λ k. get_empty {V = ConnectedPlayer C} k [] refl in
      let start : IsSeated get_conn_id blank = record {
        registry = new_room_manager-IsRegistry;
        no_zero = get_empty 0 blank.rooms.rooms (new_room_manager_empty C);
        owned = λ k p g. ground (arith, g, none_in k);
        seated = λ i j. ground (arith, in_room-new C i j, none_in j);
      } in
      elim (Result-cases (add_accounts {E = E} hash_cost accounts [] blank)) [
        | inr (x, e) ↦ absurd (ground (arith, h, e))
        | inl (s₁, e) ↦ elim (Result-cases (add_rooms {E = E} hash_cost rooms s₁)) [
          | inr (x, f) ↦ absurd (ground (arith, h, e, f))
          | inl (s₂, f) ↦
              let v =
                add_rooms-IsSeated rooms s₁ s₂ f
                  (add_accounts-IsSeated accounts [] blank s₁ e start) in
              subst (IsSeated get_conn_id) (ground (arith, h, e, f)) (
                update-IsSeated get_conn_id s₂ (record s₂ { room_ids = sort s₂.room_ids }) refl refl
                  v)
        ]
      ]
