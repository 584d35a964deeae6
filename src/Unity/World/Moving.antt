-- ===== src/Unity/World/Moving.antt =====
-- What an update reports of the view, and whom a message to the view reaches.
use ginx.Prelude.{
  ℕ, ◌≡◌, refl, inl, inr, not, ◌&&◌, some, List, arith, if◌then◌else◌, ◌==◌, nat_eq, string_eq,
  Option-cases, elem, ok, Result-cases, ℤ, int_eq,
}
use ginx.GoMap.{get, put}
use ginx.GoMap.Laws.{get-put}
use ginx.Gcore.Aoi.{Float64, move_entity, get_nearby_entity_ids}
use ginx.Gcore.Aoi.Move.{move_entity-IsChange}
use ginx.Unity.Messages.Position.{UnityPosition}
use ginx.Unity.World.{
  UnityWorldPlayer, UnityWorld, UnityWorldMoveResult, update_player_with_visibility, nearby_players,
  players_from_ids, aoi_position, from_aoi,
}
use ginx.Unity.World.Online.{IsOnline}
use ginx.Unity.World.Keeping.{update_player-IsOnline}
use ginx.Unity.World.View.{conn_ids, elem-players_from_ids}

module _ {F C : Type 0} (float : Float64 F) (float64_of : ℕ → F) (get_conn_id : C → ℕ)
    (w w' : UnityWorld F C) (v : IsOnline float float64_of get_conn_id w) where
  nearby_players_ids :
      (u : UnityWorld F C) (id : ℕ) (ids : List ℕ)
      → get_nearby_entity_ids float u.aoi id ≡ ok ids
      → nearby_players u float id ≡ players_from_ids u ids
  unfolding nearby_players
  nearby_players_ids u id ids e = rw (e, nearby_players) refl

  -- An update that succeeds in a world whose maps agree gives the player its new place and action, and
  -- leaves every other player as it was. It reports as entered exactly the players that the player sees
  -- after it and did not see before, as left those that it saw and sees no more, and as visible its
  -- view after it.
  pub update_player-view :
      (id : ℕ) (position : UnityPosition) (action_data : ℤ) (result : UnityWorldMoveResult C)
      → update_player_with_visibility float float64_of get_conn_id w id position action_data
        ≡ ok (result, w')
      → (result.visible ≡ nearby_players w' float id)
        × (result.player.position ≡ position)
        × (result.player.action_data ≡ action_data)
        × ((k : ℕ) → get k w'.players ≡ (if id == k then some result.player else get k w.players))
        × ((k : ℕ)
            → elem k (conn_ids result.entered) ≡ (
                elem k (conn_ids (nearby_players w' float id))
                && not (elem k (conn_ids (nearby_players w float id)))))
        × ((k : ℕ)
            → elem k (conn_ids result.left) ≡ (
                elem k (conn_ids (nearby_players w float id))
                && not (elem k (conn_ids (nearby_players w' float id)))))
  unfolding update_player_with_visibility from_aoi
  update_player-view id position action_data result h = elim (Option-cases (get id w.players)) [
    | inl n ↦ absurd (ground (arith, h, n))
    | inr (old, f) ↦
        elim (Result-cases (move_entity float w.aoi id (aoi_position float64_of position))) [
          | inr (x, e) ↦ absurd (ground (arith, h, f, e))
          | inl ((change, aoi), e) ↦
              let v' =
                update_player-IsOnline float float64_of get_conn_id w w' v id position action_data
                  result h in
              let (olds, news, before, after, c) =
                move_entity-IsChange float w.aoi v.indexed id (aoi_position float64_of position)
                  change aoi e in
              let new : UnityWorldPlayer C = record old {
                position = position;
                action_data = action_data;
              } in
              let same : w' ≡ record w { players = put id new w.players; aoi = aoi } =
                ground (arith, h, e, f) in
              let after' : get_nearby_entity_ids float w'.aoi id ≡ ok news =
                ground (arith, same, after) in
              let view = nearby_players_ids w' id news after' in
              let old_view = nearby_players_ids w id olds before in
              let entered : result.entered ≡ players_from_ids w' change.entered =
                ground (arith, h, e, f, same) in
              let left : result.left ≡ players_from_ids w' change.left =
                ground (arith, h, e, f, same) in
              (
                ground (arith, h, e, f, same),
                ground (arith, h, e, f),
                ground (arith, h, e, f),
                λ k. ground (arith, h, e, f, same, get-put k id new w.players),
                λ k. ground (
                  arith,
                  entered,
                  view,
                  old_view,
                  c.entered_iff k,
                  get-put k id new w.players,
                  same,
                  elem-players_from_ids float float64_of get_conn_id w' v' k change.entered,
                  elem-players_from_ids float float64_of get_conn_id w' v' k news,
                  elem-players_from_ids float float64_of get_conn_id w v k olds,
                ),
                λ k. ground (
                  arith,
                  left,
                  view,
                  old_view,
                  c.left_iff k,
                  get-put k id new w.players,
                  same,
                  elem-players_from_ids float float64_of get_conn_id w' v' k change.left,
                  elem-players_from_ids float float64_of get_conn_id w' v' k news,
                  elem-players_from_ids float float64_of get_conn_id w v k olds,
                ),
              )
        ]
  ]
