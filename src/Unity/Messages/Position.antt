-- ===== src/Unity/Messages/Position.antt =====
-- examples/unity/protocol.go: UnityPosition, four fixed fields. A `float32` is its 32 bits.
pub mod RoundTrip
use ginx.Prelude.{
  ℕ, not, ◌||◌, Option, none, some, List, [], ◌∷◌, if◌then◌else◌, ◌==◌, nat_eq, string_eq, length,
  elem, Result, ok, err, ◌>>=◌, ◌>>◌, reject, int_eq,
}
use ginx.Prelude.Bytes.{uint32_of}
use ginx.Unity.Varint.{WireError, message_is_nil, wire_type_invalid}
use ginx.Unity.Fields.{Field, append_fixed32, decode_fields}

pub record UnityPosition : Type 0 where
  pub x : ℕ
  pub y : ℕ
  pub z : ℕ
  pub v : ℕ

abbrev pub zero_position : UnityPosition
zero_position = record { x = 0; y = 0; z = 0; v = 0 }

unfoldable pub marshal_position : UnityPosition → Result WireError (List ℕ)
marshal_position p =
    let bytes = append_fixed32 [] 1 p.x in
    let bytes' = append_fixed32 bytes 2 p.y in
    let bytes'' = append_fixed32 bytes' 3 p.z in ok (append_fixed32 bytes'' 4 p.v)

-- binary.LittleEndian.Uint32: it panics on less, which the length test before it excludes.
abbrev pub uint32_at : List ℕ → ℕ
uint32_at (a ∷ b ∷ c ∷ d ∷ rest) = uint32_of a b c d
uint32_at _ = 0

abbrev pub set_coordinate : UnityPosition → ℕ → ℕ → UnityPosition
set_coordinate p num value =
    if num == 1
    then record p { x = value }
    else if num == 2
    then record p { y = value }
    else if num == 3
    then record p { z = value }
    else record p { v = value }

pub position_field : UnityPosition → Field → Result WireError UnityPosition
position_field p field =
    if elem field.num (1 ∷ 2 ∷ 3 ∷ 4 ∷ [])
    then (do
      reject (not (field.wire == 5) || not (length field.value == 4)) wire_type_invalid
      ok (set_coordinate p field.num (uint32_at field.value)))
    else ok p

unfoldable pub unmarshal_position : Option UnityPosition → List ℕ → Result WireError UnityPosition
unfolding position_field
unmarshal_position none bytes = err message_is_nil
unmarshal_position (some p) bytes = decode_fields position_field bytes p
