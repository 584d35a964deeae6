-- ===== src/Unity/Messages/Players.antt =====
-- examples/unity/protocol.go: UnitySyncPID, UnityPlayer, UnitySyncPlayers and UnityMovePackage.
pub mod RoundTrip
use ginx.Prelude.{
  ℕ, ◌+◌, not, Option, none, some, List, [], ◌∷◌, ◌++◌, if◌then◌else◌, ◌==◌, nat_eq, string_eq,
  Result, ok, err, ◌>>=◌, ◌>>◌, reject, ℤ, pos, int_eq,
}
use ginx.Unity.Varint.{WireError, message_is_nil, wire_type_invalid}
use ginx.Unity.Fields.{Field, append_varint, append_bytes, decode_fields}
use ginx.Unity.Messages.{extend_int32, int32_of}
use ginx.Unity.Messages.Position.{
  UnityPosition, zero_position, marshal_position, unmarshal_position,
}

pub record UnitySyncPid : Type 0 where
  pub pid : ℤ

pub record UnityPlayer : Type 0 where
  pub pid : ℤ
  pub p : UnityPosition

abbrev pub zero_player : UnityPlayer
zero_player = record { pid = pos 0; p = zero_position }

pub record UnitySyncPlayers : Type 0 where
  pub players : List UnityPlayer

pub record UnityMovePackage : Type 0 where
  pub p : UnityPosition
  pub action_data : ℤ

pub marshal_sync_pid : UnitySyncPid → Result WireError (List ℕ)
marshal_sync_pid m = ok (append_varint [] 1 (extend_int32 m.pid))

pub sync_pid_field : UnitySyncPid → Field → Result WireError UnitySyncPid
sync_pid_field m field =
    if field.num == 1
    then (do
      reject (not (field.wire == 0)) wire_type_invalid
      ok (record m { pid = int32_of field.number }))
    else ok m

pub unmarshal_sync_pid : Option UnitySyncPid → List ℕ → Result WireError UnitySyncPid
unfolding sync_pid_field
unmarshal_sync_pid none bytes = err message_is_nil
unmarshal_sync_pid (some m) bytes = decode_fields sync_pid_field bytes m

pub marshal_player : UnityPlayer → Result WireError (List ℕ)
marshal_player m = do
  position ← marshal_position m.p
  let bytes = append_varint [] 1 (extend_int32 m.pid)
  ok (append_bytes bytes 2 position)

pub player_field : UnityPlayer → Field → Result WireError UnityPlayer
player_field m field =
    if field.num == 1
    then (do
      reject (not (field.wire == 0)) wire_type_invalid
      ok (record m { pid = int32_of field.number }))
    else if field.num == 2
    then (do
      reject (not (field.wire == 2)) wire_type_invalid
      p ← unmarshal_position (some m.p) field.value
      ok (record m { p = p }))
    else ok m

pub unmarshal_player : Option UnityPlayer → List ℕ → Result WireError UnityPlayer
unfolding player_field
unmarshal_player none bytes = err message_is_nil
unmarshal_player (some m) bytes = decode_fields player_field bytes m

-- The loop over the players, each appended behind those before it.
pub append_players : List ℕ → List UnityPlayer → Result WireError (List ℕ)
unfolding marshal_player
append_players bytes [] = ok bytes
append_players bytes (player ∷ players) = do
  player_data ← marshal_player player
  append_players (append_bytes bytes 1 player_data) players

pub marshal_sync_players : UnitySyncPlayers → Result WireError (List ℕ)
unfolding append_players
marshal_sync_players m = append_players [] m.players

pub sync_players_field : UnitySyncPlayers → Field → Result WireError UnitySyncPlayers
unfolding unmarshal_player
sync_players_field m field =
    if field.num == 1
    then (do
      reject (not (field.wire == 2)) wire_type_invalid
      player ← unmarshal_player (some zero_player) field.value
      ok (record m { players = m.players ++ (player ∷ []) }))
    else ok m

-- The players that the receiver had are dropped before anything is read.
pub unmarshal_sync_players : Option UnitySyncPlayers → List ℕ → Result WireError UnitySyncPlayers
unfolding sync_players_field
unmarshal_sync_players none bytes = err message_is_nil
unmarshal_sync_players (some m) bytes =
    decode_fields sync_players_field bytes (record m { players = [] })

pub marshal_move_package : UnityMovePackage → Result WireError (List ℕ)
marshal_move_package m = do
  position ← marshal_position m.p
  let bytes = append_bytes [] 1 position
  ok (append_varint bytes 2 (extend_int32 m.action_data))

pub move_package_field : UnityMovePackage → Field → Result WireError UnityMovePackage
move_package_field m field =
    if field.num == 1
    then (do
      reject (not (field.wire == 2)) wire_type_invalid
      p ← unmarshal_position (some m.p) field.value
      ok (record m { p = p }))
    else if field.num == 2
    then (do
      reject (not (field.wire == 0)) wire_type_invalid
      ok (record m { action_data = int32_of field.number }))
    else ok m

pub unmarshal_move_package : Option UnityMovePackage → List ℕ → Result WireError UnityMovePackage
unfolding move_package_field
unmarshal_move_package none bytes = err message_is_nil
unmarshal_move_package (some m) bytes = decode_fields move_package_field bytes m
