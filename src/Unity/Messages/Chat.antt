-- ===== src/Unity/Messages/Chat.antt =====
-- examples/unity/protocol.go: UnityTalk and UnityBroadCast. Content is the bytes of a string.
pub mod RoundTrip
use ginx.Prelude.{
  ℕ, not, Option, none, some, List, [], ◌∷◌, if◌then◌else◌, ◌==◌, nat_eq, string_eq, elem, Result,
  ok, err, ◌>>=◌, ◌>>◌, reject, ℤ, pos, int_eq,
}
use ginx.Unity.Varint.{WireError, message_is_nil, wire_type_invalid}
use ginx.Unity.Fields.{Field, append_varint, append_bytes, decode_fields}
use ginx.Unity.Messages.{extend_int32, int32_of, append_text}
use ginx.Unity.Messages.Position.{
  UnityPosition, zero_position, marshal_position, unmarshal_position,
}

pub record UnityTalk : Type 0 where
  pub content : List ℕ

pub record UnityBroadCast : Type 0 where
  pub pid : ℤ
  pub tp : ℤ
  pub content : List ℕ
  pub p : Option UnityPosition
  pub action_data : ℤ

abbrev pub zero_broadcast : UnityBroadCast
zero_broadcast = record { pid = pos 0; tp = pos 0; content = []; p = none; action_data = pos 0 }

pub marshal_talk : UnityTalk → Result WireError (List ℕ)
marshal_talk m = ok (append_bytes [] 1 m.content)

pub talk_field : UnityTalk → Field → Result WireError UnityTalk
talk_field m field =
    if field.num == 1
    then (do
      reject (not (field.wire == 2)) wire_type_invalid
      ok (record m { content = field.value }))
    else ok m

pub unmarshal_talk : Option UnityTalk → List ℕ → Result WireError UnityTalk
unfolding talk_field
unmarshal_talk none bytes = err message_is_nil
unmarshal_talk (some m) bytes = decode_fields talk_field bytes m

-- `if m.P != nil`
pub append_position : List ℕ → Option UnityPosition → Result WireError (List ℕ)
append_position bytes none = ok bytes
append_position bytes (some p) = do
  position ← marshal_position p
  ok (append_bytes bytes 4 position)

-- Empty content, no position and no action are left out.
pub marshal_broadcast : UnityBroadCast → Result WireError (List ℕ)
unfolding append_position
marshal_broadcast m = do
  let bytes = append_varint [] 1 (extend_int32 m.pid)
  let bytes' = append_varint bytes 2 (extend_int32 m.tp)
  let bytes'' = append_text bytes' m.content
  bytes''' ← append_position bytes'' m.p
  ok (
      if m.action_data == pos 0
      then bytes'''
      else append_varint bytes''' 5 (extend_int32 m.action_data))

abbrev pub set_number : UnityBroadCast → ℕ → ℤ → UnityBroadCast
set_number m num value =
    if num == 1
    then record m { pid = value }
    else if num == 2
    then record m { tp = value }
    else record m { action_data = value }

pub broadcast_field : UnityBroadCast → Field → Result WireError UnityBroadCast
broadcast_field m field =
    if elem field.num (1 ∷ 2 ∷ 5 ∷ [])
    then (do
      reject (not (field.wire == 0)) wire_type_invalid
      ok (set_number m field.num (int32_of field.number)))
    else if field.num == 3
    then (do
      reject (not (field.wire == 2)) wire_type_invalid
      ok (record m { content = field.value }))
    else if field.num == 4
    then (do
      reject (not (field.wire == 2)) wire_type_invalid
      p ← unmarshal_position (some zero_position) field.value
      ok (record m { p = some p }))
    else ok m

pub unmarshal_broadcast : Option UnityBroadCast → List ℕ → Result WireError UnityBroadCast
unfolding broadcast_field
unmarshal_broadcast none bytes = err message_is_nil
unmarshal_broadcast (some m) bytes = decode_fields broadcast_field bytes m
