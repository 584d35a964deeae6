-- ===== src/Unity/World/Examples.antt =====
-- Two players on a grid of whole coordinates, and the theorems on them.
use ginx.Prelude.{
  ℕ, ◌/◌, ◌≡◌, refl, true, false, not, ◌&&◌, ◌++◌, map, Option, none, some, List, [], ◌∷◌, ltb, leb,
  if◌then◌else◌, ◌==◌, nat_eq, string_eq, elem, ok, err, pos, int_eq,
}
use ginx.GoMap.{get, put, delete, has}
use ginx.Sort.{sort, IsDistinct}
use ginx.Gcore.Aoi.{
  Float64, new_aoi_manager, cell_for, add_entity, add_to_cell, remove_from_cell, move_entity,
  rehome, nearby_locked, scan_cells, difference, fill, get_nearby_entity_ids, cell_eq,
}
use ginx.Unity.Messages.Position.{UnityPosition, zero_position}
use ginx.Unity.World.{
  UnityWorld, UnityWorldPlayer, player_not_found, aoi_position, UnityWorldMoveResult,
  new_unity_world_with_aoi, from_aoi, nearby_players, players_from_ids, found_players, sort_by_pid,
  insert_by_pid, values, online_players, add_player_with_pid, remove_player_with_visibility,
  update_player_with_visibility,
}
use ginx.Unity.World.Online.{IsOnline, place_of}
use ginx.Unity.World.View.{IsAscending, conn_ids, sees_place, nearby_players-sees}
use ginx.Unity.World.Moving.{update_player-view}
use ginx.Unity.World.Broadcast.{
  send_each, broadcast_visible, skips, broadcast_each, world_broadcast,
}
use ginx.Unity.World.Broadcast.Sends.{deliver}
use ginx.Unity.World.Broadcast.Reached.{world_broadcast-reaches, broadcast_visible-reaches}
use ginx.Unity.World.History.{
  WorldCall, adds, updates, step, run, run-new_unity_world-IsOnline, remove_player-refused,
}

-- Whole, finite coordinates from 0 up.
abbrev whole : Float64 ℕ
whole = record {
  origin = 0;
  is_nan = λ x. false;
  is_inf = λ x. false;
  lt = ltb;
  le = leb;
  cell_index = λ x w. pos (x / w);
}

abbrev same : ℕ → ℕ
same x = x

abbrev empty_world : UnityWorld ℕ ℕ
empty_world = record {
  players = [];
  player_ids = [];
  aoi = record {
    world_width = 100;
    world_height = 100;
    cell_width = 10;
    cell_height = 10;
    entities = [];
    cells = [];
  };
}

new_world : new_unity_world_with_aoi {C = ℕ} whole same same 100 100 10 10 ≡ ok empty_world
unfolding new_unity_world_with_aoi from_aoi new_aoi_manager
new_world = refl

abbrev calls : List (WorldCall ℕ)
calls = adds (some 4) (pos 40) ∷ adds (some 7) (pos 30) ∷ []

abbrev busy : UnityWorld ℕ ℕ
unfolding run
busy = run whole same same empty_world calls

busy-IsOnline : IsOnline whole same same busy
unfolding run busy
busy-IsOnline =
    run-new_unity_world-IsOnline whole same same 100 100 10 10 empty_world calls new_world

abbrev me : UnityWorldPlayer ℕ
me = record {
  pid = pos 40;
  conn_id = 4;
  position = zero_position;
  action_data = pos 0;
  connection = 4;
}

me_online : get 4 busy.players ≡ some me
unfolding busy run step add_player_with_pid from_aoi add_entity cell_for add_to_cell get put
me_online = refl

run-new_unity_world-IsOnline_example :
    IsOnline whole same same (run whole same same empty_world calls)
run-new_unity_world-IsOnline_example =
    run-new_unity_world-IsOnline whole same same 100 100 10 10 empty_world calls new_world

-- The player of connection 7 has the smaller PID.
nearby_both : conn_ids (nearby_players busy whole 4) ≡ 7 ∷ []
unfolding busy run step add_player_with_pid from_aoi add_entity cell_for add_to_cell get put
    nearby_players get_nearby_entity_ids nearby_locked scan_cells sort players_from_ids
    found_players sort_by_pid insert_by_pid
nearby_both = refl

nearby_players-sees_example :
    IsAscending (nearby_players busy whole 4)
    × IsDistinct (conn_ids (nearby_players busy whole 4))
    × ((k : ℕ)
        → elem k (conn_ids (nearby_players busy whole 4)) ≡ (
            sees_place whole busy.aoi
              (aoi_position same zero_position)
              (place_of same (get k busy.players))
            && not (k == 4)))
nearby_players-sees_example = nearby_players-sees whole same same busy busy-IsOnline 4 me me_online

nobody : remove_player_with_visibility whole same same busy 9 ≡ err player_not_found
unfolding busy run step add_player_with_pid from_aoi add_entity cell_for add_to_cell get put
    remove_player_with_visibility
nobody = refl

remove_player-refused_example : (get 9 busy.players ≡ none) × (player_not_found ≡ player_not_found)
remove_player-refused_example =
    remove_player-refused whole same same busy 9 player_not_found busy-IsOnline nobody

-- A move out of sight.
abbrev far : UnityPosition
far = record { x = 95; y = 3; z = 95; v = 1 }

abbrev here : UnityWorldPlayer ℕ
here = record me { position = far; action_data = pos 2 }

abbrev neighbour : UnityWorldPlayer ℕ
neighbour = record {
  pid = pos 30;
  conn_id = 7;
  position = zero_position;
  action_data = pos 0;
  connection = 7;
}

abbrev result : UnityWorldMoveResult ℕ
result = record { player = here; entered = []; left = neighbour ∷ []; visible = [] }

abbrev scattered : UnityWorld ℕ ℕ
unfolding run
scattered = run whole same same busy (updates 4 far (pos 2) ∷ [])

moves_away :
    update_player_with_visibility whole same same busy 4 far (pos 2) ≡ ok (result, scattered)
unfolding busy scattered run step add_player_with_pid from_aoi add_entity cell_for add_to_cell get
    put delete nearby_players get_nearby_entity_ids nearby_locked scan_cells sort players_from_ids
    found_players sort_by_pid insert_by_pid update_player_with_visibility move_entity rehome
    remove_from_cell difference fill
moves_away = refl

update_player-view_example :
    (result.visible ≡ nearby_players scattered whole 4)
    × (result.player.position ≡ far)
    × (result.player.action_data ≡ pos 2)
    × ((k : ℕ)
        → get k scattered.players ≡ (if 4 == k then some result.player else get k busy.players))
    × ((k : ℕ)
        → elem k (conn_ids result.entered) ≡ (
            elem k (conn_ids (nearby_players scattered whole 4))
            && not (elem k (conn_ids (nearby_players busy whole 4)))))
    × ((k : ℕ)
        → elem k (conn_ids result.left) ≡ (
            elem k (conn_ids (nearby_players busy whole 4))
            && not (elem k (conn_ids (nearby_players scattered whole 4)))))
update_player-view_example =
    update_player-view whole same same busy scattered busy-IsOnline 4 far (pos 2) result moves_away

-- A send that reaches the connections below 5 alone; the outside is the list of those it was asked for.
abbrev send : ℕ → ℕ → List ℕ → List ℕ → Option ℕ × List ℕ
send c msg_id bytes asked = (if ltb c 5 then none else some c, asked ++ (c ∷ []))

to_all : world_broadcast send busy 200 [] none [] ≡ (7 ∷ [], 7 ∷ 4 ∷ [])
unfolding busy run step add_player_with_pid from_aoi add_entity cell_for add_to_cell get put
    world_broadcast broadcast_each online_players values sort_by_pid insert_by_pid
to_all = refl

to_those_in_sight : broadcast_visible send busy whole 4 200 [] true [] ≡ (7 ∷ [], 7 ∷ 4 ∷ [])
unfolding busy run step add_player_with_pid from_aoi add_entity cell_for add_to_cell get put
    broadcast_visible send_each nearby_players get_nearby_entity_ids nearby_locked scan_cells sort
    players_from_ids found_players sort_by_pid insert_by_pid
to_those_in_sight = refl

world_broadcast-reaches_example :
    (cs : List ℕ) × (world_broadcast send busy 200 [] (some 7) [] ≡ deliver send 200 [] cs [])
    × IsDistinct (map same cs)
    × ((k : ℕ) → elem k (map same cs) ≡ (has k busy.players && not (skips (some 7) k)))
world_broadcast-reaches_example =
    world_broadcast-reaches whole same same busy busy-IsOnline send 200 [] (some 7) []

broadcast_visible-reaches_example :
    (cs : List ℕ) × (broadcast_visible send busy whole 4 200 [] true [] ≡ deliver send 200 [] cs [])
    × IsDistinct (map same cs)
    × ((k : ℕ)
        → elem k (map same cs) ≡ (
            if k == 4
            then true
            else sees_place whole busy.aoi
                (aoi_position same zero_position)
                (place_of same (get k busy.players))))
broadcast_visible-reaches_example =
    broadcast_visible-reaches whole same same busy busy-IsOnline send 4 me me_online 200 [] true []
