-- ===== src/Unity/Messages/Room/RoundTrip.antt =====
-- What is written for the room messages is read back.
use ginx.Prelude.{
  ℕ, ◌^◌, ◌<◌, ◌≡◌, refl, sym, ap, some, List, arith, nat_eq, string_eq, length, ok, ◌>>=◌, int_eq,
}
use ginx.Unity.Fields.Laws.{Decodes-nil, Decodes-append_varint, decode_fields-Decodes}
use ginx.Unity.Messages.{IsInt32, Decodes-append_int32, Decodes-append_text, uint32_low-id}
use ginx.Unity.Messages.Room.{
  UnityRoomRequest, UnityRoomResponse, UnityRoomEvent, zero_response, zero_event,
  marshal_room_request, room_request_field, unmarshal_room_request, marshal_room_response,
  room_response_field, unmarshal_room_response, marshal_room_event, room_event_field,
  unmarshal_room_event,
}

pub unmarshal-marshal_room_request :
    (m before : UnityRoomRequest)
    → m.room_id < 2 ^ 32
    → (marshal_room_request m >>= unmarshal_room_request (some before)) ≡ ok m
unfolding marshal_room_request unmarshal_room_request room_request_field
unmarshal-marshal_room_request m before h = decode_fields-Decodes room_request_field _ before m (
    Decodes-append_varint room_request_field _ 1 m.room_id before before m
      (Decodes-nil room_request_field before) (rw (uint32_low-id m.room_id h) refl) (omega arith)
      (omega arith) (omega arith))

pub unmarshal-marshal_room_response :
    (m : UnityRoomResponse)
    → m.room_id < 2 ^ 32
    → IsInt32 m.code
    → length m.message < 2 ^ 64
    → m.player_count < 2 ^ 32
    → (marshal_room_response m >>= unmarshal_room_response (some zero_response)) ≡ ok m
unfolding marshal_room_response unmarshal_room_response room_response_field
unmarshal-marshal_room_response m hroom hcode htext hcount =
    let one : UnityRoomResponse = record zero_response { room_id = m.room_id } in
    let two : UnityRoomResponse = record one { code = m.code } in
    let three : UnityRoomResponse = record two { message = m.message } in
    decode_fields-Decodes room_response_field _ zero_response m (
      Decodes-append_varint room_response_field _ 4 m.player_count zero_response three m
        (Decodes-append_text room_response_field _ m.message zero_response two three
          (Decodes-append_int32 room_response_field _ 2 m.code zero_response one two
            (Decodes-append_varint room_response_field _ 1 m.room_id zero_response zero_response one
              (Decodes-nil room_response_field zero_response)
              (rw (uint32_low-id m.room_id hroom) refl) (omega arith) (omega arith) (omega arith))
            hcode (λ t. rw t refl) (omega arith) (omega arith))
          (λ t. ap (λ (text : List ℕ). record two { message = text }) (sym t)) refl htext)
        (rw (uint32_low-id m.player_count hcount) refl) (omega arith) (omega arith) (omega arith))

pub unmarshal-marshal_room_event :
    (m : UnityRoomEvent)
    → m.room_id < 2 ^ 32
    → IsInt32 m.player_id
    → length m.content < 2 ^ 64
    → (marshal_room_event m >>= unmarshal_room_event (some zero_event)) ≡ ok m
unfolding marshal_room_event unmarshal_room_event room_event_field
unmarshal-marshal_room_event m hroom hplayer htext =
    let one : UnityRoomEvent = record zero_event { room_id = m.room_id } in
    let two : UnityRoomEvent = record one { player_id = m.player_id } in
    decode_fields-Decodes room_event_field _ zero_event m (
      Decodes-append_text room_event_field _ m.content zero_event two m
        (Decodes-append_int32 room_event_field _ 2 m.player_id zero_event one two
          (Decodes-append_varint room_event_field _ 1 m.room_id zero_event zero_event one
            (Decodes-nil room_event_field zero_event) (rw (uint32_low-id m.room_id hroom) refl)
            (omega arith) (omega arith) (omega arith))
          hplayer (λ t. rw t refl) (omega arith) (omega arith))
        (λ t. ap (λ (text : List ℕ). record two { content = text }) (sym t)) refl htext)
