-- ===== src/Unity/World/Keeping.antt =====
-- Adding, removing and updating a player keep the maps of a world in step.
use ginx.Prelude.{
  ℕ, ◌≡◌, sym, ap, subst, inl, inr, none, some, List, arith, nat_eq, string_eq, ==_iff,
  Option-cases, ok, Result-cases, ℤ, pos, int_eq,
}
use ginx.GoMap.{get, put, delete}
use ginx.GoMap.Laws.{get-put, get-delete, put-IsUnique, delete-IsUnique}
use ginx.Gcore.Aoi.{Float64, add_entity, remove_entity, move_entity}
use ginx.Gcore.Aoi.Invariant.{IsIndexed, add_entity-IsIndexed, remove_entity-IsIndexed}
use ginx.Gcore.Aoi.Rehoming.{move_entity-IsIndexed}
use ginx.Gcore.Aoi.Places.{add_entity-place, remove_entity-place, move_entity-place}
use ginx.Unity.Messages.Position.{UnityPosition, zero_position}
use ginx.Unity.World.{
  UnityWorldPlayer, UnityWorld, UnityWorldMoveResult, from_aoi, aoi_position, add_player_with_pid,
  remove_player_with_visibility, update_player_with_visibility,
}
use ginx.Unity.World.Online.{IsOnline}

module _ {F C : Type 0} (float : Float64 F) (float64_of : ℕ → F) (get_conn_id : C → ℕ)
    (w w' : UnityWorld F C) (v : IsOnline float float64_of get_conn_id w) where
  pub add_player_with_pid-IsOnline :
      (connection : C) (pid : ℤ) (player : UnityWorldPlayer C) (nearby : List (UnityWorldPlayer C))
      → add_player_with_pid float float64_of get_conn_id w (some connection) pid
        ≡ ok (player, nearby, w')
      → IsOnline float float64_of get_conn_id w'
  unfolding add_player_with_pid from_aoi
  add_player_with_pid-IsOnline connection pid player nearby h =
      let id = get_conn_id connection in
      elim (Result-cases (add_entity float w.aoi id (aoi_position float64_of zero_position))) [
        | inr (x, e) ↦ absurd (ground (arith, h, e))
        | inl (aoi, e) ↦
            let new : get id w.players ≡ none = ground (arith, h, e) in
            let new_pid : get pid w.player_ids ≡ none = ground (arith, h, e) in
            let added : UnityWorldPlayer C = record {
              pid = pid;
              conn_id = id;
              position = zero_position;
              action_data = pos 0;
              connection = connection;
            } in
            let same : w' ≡ record w {
              players = put id added w.players;
              player_ids = put pid id w.player_ids;
              aoi = aoi;
            } =
              ground (arith, h, e, new, new_pid) in
            record {
              unique = ground (arith, same, put-IsUnique id added w.players v.unique);
              own_id = λ k p g. ground (arith, same, g, get-put k id added w.players, v.own_id k p);
              own_connection = λ k p g.
                  ground (arith, same, g, get-put k id added w.players, v.own_connection k p);
              has_entry = λ k p g. ground (
                arith,
                same,
                g,
                get-put k id added w.players,
                v.has_entry k p,
                new_pid,
                get-put p.pid pid id w.player_ids,
                ==_iff pid p.pid,
              );
              has_player = λ q k g. ground (
                arith,
                same,
                g,
                get-put k id added w.players,
                v.has_player q k,
                new,
                get-put q pid id w.player_ids,
                ==_iff pid q,
              );
              located = λ k. ground (
                arith,
                same,
                get-put k id added w.players,
                v.located k,
                add_entity-place float w.aoi aoi id (aoi_position float64_of zero_position) k e,
              );
              indexed = subst (IsIndexed float) (ap (λ (u : UnityWorld F C). u.aoi) (sym same)) (
                  add_entity-IsIndexed float w.aoi v.indexed id aoi
                    (aoi_position float64_of zero_position) e);
            }
      ]

  pub remove_player-IsOnline :
      (id : ℕ) (player : UnityWorldPlayer C) (nearby : List (UnityWorldPlayer C))
      → remove_player_with_visibility float float64_of get_conn_id w id ≡ ok (player, nearby, w')
      → IsOnline float float64_of get_conn_id w'
  unfolding remove_player_with_visibility from_aoi
  remove_player-IsOnline id player nearby h = elim (Option-cases (get id w.players)) [
    | inl n ↦ absurd (ground (arith, h, n))
    | inr (gone, f) ↦ elim (Result-cases (remove_entity float w.aoi id)) [
      | inr (x, e) ↦ absurd (ground (arith, h, f, e))
      | inl (aoi, e) ↦
          let same : w' ≡ record w {
            players = delete id w.players;
            player_ids = delete gone.pid w.player_ids;
            aoi = aoi;
          } =
            ground (arith, h, e, f) in
          record {
            unique = ground (arith, same, delete-IsUnique id w.players v.unique);
            own_id = λ k p g. ground (arith, same, g, get-delete k id w.players, v.own_id k p);
            own_connection =
                λ k p g. ground (arith, same, g, get-delete k id w.players, v.own_connection k p);
            has_entry = λ k p g. ground (
              arith,
              same,
              g,
              f,
              get-delete k id w.players,
              v.has_entry k p,
              v.has_entry id gone f,
              get-delete p.pid gone.pid w.player_ids,
              ==_iff gone.pid p.pid,
            );
            has_player = λ q k g. ground (
              arith,
              same,
              g,
              f,
              get-delete k id w.players,
              v.has_player q k,
              get-delete q gone.pid w.player_ids,
              ==_iff gone.pid q,
            );
            located = λ k. ground (
              arith,
              same,
              get-delete k id w.players,
              v.located k,
              remove_entity-place float w.aoi aoi id k e,
            );
            indexed =
                subst (IsIndexed float) (ap (λ (u : UnityWorld F C). u.aoi) (sym same))
                  (remove_entity-IsIndexed float w.aoi v.indexed id aoi e);
          }
    ]
  ]

  pub update_player-IsOnline :
      (id : ℕ) (position : UnityPosition) (action_data : ℤ) (result : UnityWorldMoveResult C)
      → update_player_with_visibility float float64_of get_conn_id w id position action_data
        ≡ ok (result, w')
      → IsOnline float float64_of get_conn_id w'
  unfolding update_player_with_visibility from_aoi
  update_player-IsOnline id position action_data result h = elim (Option-cases (get id w.players)) [
    | inl n ↦ absurd (ground (arith, h, n))
    | inr (old, f) ↦
        elim (Result-cases (move_entity float w.aoi id (aoi_position float64_of position))) [
          | inr (x, e) ↦ absurd (ground (arith, h, f, e))
          | inl ((change, aoi), e) ↦
              let new : UnityWorldPlayer C = record old {
                position = position;
                action_data = action_data;
              } in
              let same : w' ≡ record w { players = put id new w.players; aoi = aoi } =
                ground (arith, h, e, f) in
              record {
                unique = ground (arith, same, put-IsUnique id new w.players v.unique);
                own_id = λ k p g.
                    ground
                      (arith, same, g, get-put k id new w.players, v.own_id k p, v.own_id id old f);
                own_connection = λ k p g. ground (
                  arith,
                  same,
                  g,
                  get-put k id new w.players,
                  v.own_connection k p,
                  v.own_connection id old f,
                );
                has_entry = λ k p g. ground (
                  arith,
                  same,
                  g,
                  f,
                  get-put k id new w.players,
                  v.has_entry k p,
                  v.has_entry id old f,
                );
                has_player = λ q k g.
                    ground (arith, same, g, f, get-put k id new w.players, v.has_player q k);
                located = λ k. ground (
                  arith,
                  same,
                  get-put k id new w.players,
                  v.located k,
                  move_entity-place float w.aoi aoi id (aoi_position float64_of position) change k
                      e,
                );
                indexed = subst (IsIndexed float) (ap (λ (u : UnityWorld F C). u.aoi) (sym same)) (
                    move_entity-IsIndexed float w.aoi id (aoi_position float64_of position) change
                      aoi v.indexed e);
              }
        ]
  ]
