-- ===== src/Unity/World.antt =====
-- examples/unity/world.go: the players that are online and where they stand. `float64(x)` of a
-- `float32` is a parameter, with the operations of gcore/aoi.go on the result. The world is not nil.
pub mod Online
pub mod Keeping
pub mod View
pub mod History
pub mod Moving
pub mod Broadcast
mod Examples
use ginx.Prelude.{
  ℕ, ◌+◌, Bool, true, false, Option, none, some, List, [], ◌∷◌, ◌++◌, ltb, if◌then◌else◌, ◌==◌,
  nat_eq, string_eq, Result, ok, err, ◌>>=◌, ◌>>◌, reject, or_fail, ℤ, pos, negsuc, int_eq,
}
use ginx.GoMap.{GoMap, get, put, delete, has}
use ginx.Gcore.Aoi.{
  Float64, AoiError, AoiManager, Position, new_aoi_manager, add_entity, remove_entity, move_entity,
  get_nearby_entity_ids,
}
use ginx.Unity.Messages.{int32_of}
use ginx.Unity.Messages.Position.{UnityPosition, zero_position}

pub data WorldError : Type 0 where
  nil_connection player_exists player_id_exists player_not_found : WorldError
  aoi_error : AoiError → WorldError

pub record UnityWorldPlayer (C : Type 0) : Type 0 where
  pub pid : ℤ
  pub conn_id : ℕ
  pub position : UnityPosition
  pub action_data : ℤ
  pub connection : C

pub record UnityWorld (F C : Type 0) : Type 0 where
  pub players : GoMap ℕ (UnityWorldPlayer C)
  pub player_ids : GoMap ℤ ℕ
  pub aoi : AoiManager F

pub record UnityWorldMoveResult (C : Type 0) : Type 0 where
  pub player : UnityWorldPlayer C
  pub entered : List (UnityWorldPlayer C)
  pub left : List (UnityWorldPlayer C)
  pub visible : List (UnityWorldPlayer C)

from_aoi {ℓ} : {A : Type ℓ} → Result AoiError A → Result WorldError A
from_aoi (ok a) = ok a
from_aoi (err e) = err (aoi_error e)

-- `a < b` on signed numbers.
abbrev pub int_ltb : ℤ → ℤ → Bool
int_ltb (pos a) (pos b) = ltb a b
int_ltb (pos a) (negsuc b) = false
int_ltb (negsuc a) (pos b) = true
int_ltb (negsuc a) (negsuc b) = ltb b a

module _ {C : Type 0} where
  pub insert_by_pid : UnityWorldPlayer C → List (UnityWorldPlayer C) → List (UnityWorldPlayer C)
  insert_by_pid p [] = p ∷ []
  insert_by_pid p (q ∷ qs) = if int_ltb q.pid p.pid then q ∷ insert_by_pid p qs else p ∷ q ∷ qs

  -- `sort.Slice` by PID.
  pub sort_by_pid : List (UnityWorldPlayer C) → List (UnityWorldPlayer C)
  unfolding insert_by_pid
  sort_by_pid [] = []
  sort_by_pid (p ∷ ps) = insert_by_pid p (sort_by_pid ps)

  -- The players that are found under the identifiers.
  pub found_players : GoMap ℕ (UnityWorldPlayer C) → List ℕ → List (UnityWorldPlayer C)
  found_players players [] = []
  found_players players (id ∷ ids) = elim (get id players) [
    | none ↦ found_players players ids
    | some p ↦ p ∷ found_players players ids
  ]

  -- `for _, player := range w.players`
  pub values : GoMap ℕ (UnityWorldPlayer C) → List (UnityWorldPlayer C)
  values [] = []
  values ((id, p) ∷ players) = p ∷ values players

module _ {F C : Type 0} where
  pub players_from_ids : UnityWorld F C → List ℕ → List (UnityWorldPlayer C)
  unfolding sort_by_pid found_players
  players_from_ids w ids = sort_by_pid (found_players w.players ids)

  pub nearby_players : UnityWorld F C → (float : Float64 F) → ℕ → List (UnityWorldPlayer C)
  unfolding players_from_ids
  nearby_players w float conn_id = elim (get_nearby_entity_ids float w.aoi conn_id) [
    | ok ids ↦ players_from_ids w ids
    | err e ↦ []
  ]

  pub get_player : UnityWorld F C → ℕ → Result WorldError (UnityWorldPlayer C)
  get_player w conn_id = or_fail (get conn_id w.players) player_not_found

  pub online_players : UnityWorld F C → List (UnityWorldPlayer C)
  unfolding sort_by_pid values
  online_players w = sort_by_pid (values w.players)

module _ {F : Type 0} (float64_of : ℕ → F) where
  -- The height of a player is left out.
  abbrev pub aoi_position : UnityPosition → Position F
  aoi_position p = record { x = float64_of p.x; y = float64_of p.z }

module _ {F C : Type 0} (float : Float64 F) (float64_of : ℕ → F) (get_conn_id : C → ℕ) where
  pub new_unity_world_with_aoi : F → F → F → F → Result WorldError (UnityWorld F C)
  unfolding from_aoi
  new_unity_world_with_aoi world_width world_height cell_width cell_height = do
    aoi ← from_aoi (new_aoi_manager float world_width world_height cell_width cell_height)
    ok (record { players = []; player_ids = []; aoi = aoi })

  pub add_player_with_pid :
      UnityWorld F C
      → Option C
      → ℤ
      → Result WorldError (UnityWorldPlayer C × List (UnityWorldPlayer C) × UnityWorld F C)
  unfolding from_aoi nearby_players
  add_player_with_pid w none pid = err nil_connection
  add_player_with_pid w (some connection) pid = do
    let conn_id = get_conn_id connection
    reject (has conn_id w.players) player_exists
    reject (has pid w.player_ids) player_id_exists
    let player : UnityWorldPlayer C = record {
      pid = pid;
      conn_id = conn_id;
      position = zero_position;
      action_data = pos 0;
      connection = connection;
    }
    aoi ← from_aoi (add_entity float w.aoi conn_id (aoi_position float64_of zero_position))
    let w' = record w {
      players = put conn_id player w.players;
      player_ids = put pid conn_id w.player_ids;
      aoi = aoi;
    }
    ok (player, nearby_players w' float conn_id, w')

  -- The connection is not nil here: its identifier is read first.
  pub add_player :
      UnityWorld F C
      → C
      → Result WorldError (UnityWorldPlayer C × List (UnityWorldPlayer C) × UnityWorld F C)
  unfolding add_player_with_pid
  add_player w connection =
      add_player_with_pid w (some connection) (int32_of (get_conn_id connection))

  pub remove_player_with_visibility :
      UnityWorld F C
      → ℕ
      → Result WorldError (UnityWorldPlayer C × List (UnityWorldPlayer C) × UnityWorld F C)
  unfolding from_aoi nearby_players
  remove_player_with_visibility w conn_id = do
    player ← or_fail (get conn_id w.players) player_not_found
    let nearby = nearby_players w float conn_id
    aoi ← from_aoi (remove_entity float w.aoi conn_id)
    let w' = record w {
      players = delete conn_id w.players;
      player_ids = delete player.pid w.player_ids;
      aoi = aoi;
    }
    ok (player, nearby, w')

  pub remove_player : UnityWorld F C → ℕ → Result WorldError (UnityWorldPlayer C × UnityWorld F C)
  unfolding remove_player_with_visibility
  remove_player w conn_id = do
    (player, _, w') ← remove_player_with_visibility w conn_id
    ok (player, w')

  -- The player is changed behind the pointer that the map holds.
  pub update_player_with_visibility :
      UnityWorld F C
      → ℕ
      → UnityPosition
      → ℤ
      → Result WorldError (UnityWorldMoveResult C × UnityWorld F C)
  unfolding from_aoi nearby_players players_from_ids
  update_player_with_visibility w conn_id position action_data = do
    player ← or_fail (get conn_id w.players) player_not_found
    (change, aoi) ← from_aoi (move_entity float w.aoi conn_id (aoi_position float64_of position))
    let player' = record player { position = position; action_data = action_data }
    let w' = record w { players = put conn_id player' w.players; aoi = aoi }
    ok (
      record {
        player = player';
        entered = players_from_ids w' change.entered;
        left = players_from_ids w' change.left;
        visible = nearby_players w' float conn_id;
      },
      w',
    )

  pub update_player :
      UnityWorld F C
      → ℕ
      → UnityPosition
      → ℤ
      → Result WorldError (UnityWorldPlayer C × UnityWorld F C)
  unfolding update_player_with_visibility
  update_player w conn_id position action_data = do
    (result, w') ← update_player_with_visibility w conn_id position action_data
    ok (result.player, w')
