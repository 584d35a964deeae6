-- ===== src/Unity/Messages/Room.antt =====
-- examples/unity/protocol.go: UnityRoomRequest, UnityRoomResponse and UnityRoomEvent.
pub mod RoundTrip
use ginx.Prelude.{
  ℕ, not, Option, none, some, List, [], ◌∷◌, if◌then◌else◌, ◌==◌, nat_eq, string_eq, elem, Result,
  ok, err, ◌>>=◌, ◌>>◌, reject, ℤ, pos, int_eq,
}
use ginx.Unity.Varint.{WireError, message_is_nil, wire_type_invalid}
use ginx.Unity.Fields.{Field, append_varint, decode_fields}
use ginx.Unity.Messages.{extend_int32, int32_of, uint32_low, append_text}

pub record UnityRoomRequest : Type 0 where
  pub room_id : ℕ

pub record UnityRoomResponse : Type 0 where
  pub room_id : ℕ
  pub code : ℤ
  pub message : List ℕ
  pub player_count : ℕ

pub record UnityRoomEvent : Type 0 where
  pub room_id : ℕ
  pub player_id : ℤ
  pub content : List ℕ

abbrev pub zero_response : UnityRoomResponse
zero_response = record { room_id = 0; code = pos 0; message = []; player_count = 0 }

abbrev pub zero_event : UnityRoomEvent
zero_event = record { room_id = 0; player_id = pos 0; content = [] }

pub marshal_room_request : UnityRoomRequest → Result WireError (List ℕ)
marshal_room_request m = ok (append_varint [] 1 m.room_id)

pub room_request_field : UnityRoomRequest → Field → Result WireError UnityRoomRequest
room_request_field m field =
    if field.num == 1
    then (do
      reject (not (field.wire == 0)) wire_type_invalid
      ok (record m { room_id = uint32_low field.number }))
    else ok m

pub unmarshal_room_request : Option UnityRoomRequest → List ℕ → Result WireError UnityRoomRequest
unfolding room_request_field
unmarshal_room_request none bytes = err message_is_nil
unmarshal_room_request (some m) bytes = decode_fields room_request_field bytes m

pub marshal_room_response : UnityRoomResponse → Result WireError (List ℕ)
marshal_room_response m =
    let bytes = append_varint [] 1 m.room_id in
    let bytes' = append_varint bytes 2 (extend_int32 m.code) in
    ok (append_varint (append_text bytes' m.message) 4 m.player_count)

pub room_response_field : UnityRoomResponse → Field → Result WireError UnityRoomResponse
room_response_field m field =
    if elem field.num (1 ∷ 2 ∷ 4 ∷ [])
    then (do
      reject (not (field.wire == 0)) wire_type_invalid
      ok (
          if field.num == 1
          then record m { room_id = uint32_low field.number }
          else if field.num == 2
          then record m { code = int32_of field.number }
          else record m { player_count = uint32_low field.number }))
    else if field.num == 3
    then (do
      reject (not (field.wire == 2)) wire_type_invalid
      ok (record m { message = field.value }))
    else ok m

pub unmarshal_room_response : Option UnityRoomResponse → List ℕ → Result WireError UnityRoomResponse
unfolding room_response_field
unmarshal_room_response none bytes = err message_is_nil
unmarshal_room_response (some m) bytes = decode_fields room_response_field bytes m

pub marshal_room_event : UnityRoomEvent → Result WireError (List ℕ)
marshal_room_event m =
    let bytes = append_varint [] 1 m.room_id in
    let bytes' = append_varint bytes 2 (extend_int32 m.player_id) in
    ok (append_text bytes' m.content)

pub room_event_field : UnityRoomEvent → Field → Result WireError UnityRoomEvent
room_event_field m field =
    if elem field.num (1 ∷ 2 ∷ [])
    then (do
      reject (not (field.wire == 0)) wire_type_invalid
      ok (
          if field.num == 1
          then record m { room_id = uint32_low field.number }
          else record m { player_id = int32_of field.number }))
    else if field.num == 3
    then (do
      reject (not (field.wire == 2)) wire_type_invalid
      ok (record m { content = field.value }))
    else ok m

pub unmarshal_room_event : Option UnityRoomEvent → List ℕ → Result WireError UnityRoomEvent
unfolding room_event_field
unmarshal_room_event none bytes = err message_is_nil
unmarshal_room_event (some m) bytes = decode_fields room_event_field bytes m
