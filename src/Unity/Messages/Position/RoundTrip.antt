-- ===== src/Unity/Messages/Position/RoundTrip.antt =====
-- A position is read back from what it was written as.
use ginx.Prelude.{
  ℕ, ◌^◌, ◌<◌, ◌≡◌, refl, ◌≢◌, true, Option, none, some, List, [], ◌∷◌, arith, nat_eq, string_eq,
  length, elem, ok, err, ◌>>=◌, int_eq,
}
use ginx.Prelude.Bytes.{uint32_of-put}
use ginx.Unity.Varint.{out_of_fuel}
use ginx.Unity.Fields.{append_fixed32}
use ginx.Unity.Fields.Laws.{
  fixed32_field, Decodes-nil, Decodes-append_fixed32, decode_fields-Decodes,
}
use ginx.Unity.Fields.Termination.{decode_fields-ne-out_of_fuel}
use ginx.Unity.Fields.Length.{length-append_fixed32}
use ginx.Unity.Messages.Position.{
  UnityPosition, marshal_position, position_field, set_coordinate, unmarshal_position,
}

-- Each coordinate is a word of 32 bits.
abbrev pub IsPosition : UnityPosition → Type 0
IsPosition p = (p.x < 2 ^ 32) × (p.y < 2 ^ 32) × (p.z < 2 ^ 32) × (p.v < 2 ^ 32)

position_field-fixed32 :
    (p : UnityPosition) (num v : ℕ)
    → elem num (1 ∷ 2 ∷ 3 ∷ 4 ∷ []) ≡ true
    → v < 2 ^ 32
    → position_field p (fixed32_field num v) ≡ ok (set_coordinate p num v)
unfolding position_field
position_field-fixed32 p num v e h = rw (e, uint32_of-put v h) refl

pub unmarshal-marshal_position :
    (p before : UnityPosition)
    → IsPosition p
    → (marshal_position p >>= unmarshal_position (some before)) ≡ ok p
unfolding marshal_position unmarshal_position position_field
unmarshal-marshal_position p before (hx, hy, hz, hv) =
    decode_fields-Decodes position_field _ before p (
      Decodes-append_fixed32 position_field _ 4 p.v before three p
        (Decodes-append_fixed32 position_field _ 3 p.z before two three
          (Decodes-append_fixed32 position_field _ 2 p.y before one two
            (Decodes-append_fixed32 position_field _ 1 p.x before before one
              (Decodes-nil position_field before) (position_field-fixed32 before 1 p.x refl hx)
              (omega arith) (omega arith))
            (position_field-fixed32 one 2 p.y refl hy) (omega arith) (omega arith))
          (position_field-fixed32 two 3 p.z refl hz) (omega arith) (omega arith))
        (position_field-fixed32 three 4 p.v refl hv) (omega arith) (omega arith))
  where
    one : UnityPosition
    one = record before { x = p.x }

    two : UnityPosition
    two = record one { y = p.y }

    three : UnityPosition
    three = record two { z = p.z }

-- A position is written as twenty bytes, from which it is read back into any receiver.
pub marshal_position-ok :
    (p : UnityPosition)
    → IsPosition p
    → (bytes : List ℕ) × (marshal_position p ≡ ok bytes)
      × (length bytes ≡ 20)
      × ((before : UnityPosition) → unmarshal_position (some before) bytes ≡ ok p)
unfolding marshal_position
marshal_position-ok p h = (
  _,
  refl,
  rw
      (
        length-append_fixed32
            (append_fixed32 (append_fixed32 (append_fixed32 [] 1 p.x) 2 p.y) 3 p.z) 4 p.v,
        length-append_fixed32 (append_fixed32 (append_fixed32 [] 1 p.x) 2 p.y) 3 p.z,
        length-append_fixed32 (append_fixed32 [] 1 p.x) 2 p.y,
        length-append_fixed32 [] 1 p.x,
      )
      refl,
  λ before. unmarshal-marshal_position p before h,
)

pub unmarshal_position-ends :
    (before : Option UnityPosition) (bytes : List ℕ)
    → unmarshal_position before bytes ≢ err out_of_fuel
unfolding unmarshal_position position_field
unmarshal_position-ends none bytes = ground arith
unmarshal_position-ends (some p) bytes =
    decode_fields-ne-out_of_fuel position_field bytes p λ s field. ground arith
