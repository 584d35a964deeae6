-- ===== src/Unity/Varint.antt =====
-- examples/unity/protocol.go: the variable-length numbers of the wire format. A byte is a number below
-- 256 and a `uint64` one below 2^64: `byte(v)|0x80` is `v % 128 + 128`, `v & 0x7f` is `v % 128`, and
-- `|=` of bits that are still clear is `+`. What is read is the rest of the data behind the offset.
pub mod Laws
use ginx.Prelude.{
  ℕ, zero, suc, ◌+◌, ◌*◌, ◌/◌, ◌%◌, ◌&&◌, List, [], ◌∷◌, ltb, if◌then◌else◌, ◌==◌, nat_eq,
  string_eq, Result, ok, err, int_eq,
}

pub data WireError : Type 0 where
  varint_incomplete varint_overflows varint_too_long : WireError
  field_number_invalid fixed64_incomplete bytes_incomplete fixed32_incomplete : WireError
  wire_type_unsupported wire_type_invalid message_is_nil out_of_fuel : WireError

-- A `uint64` has ten groups of seven bits, so that nine rounds of the loop are enough.
pub groups : ℕ → ℕ → List ℕ
groups zero value = value % 256 ∷ []
groups (suc rounds) value =
    let rest = groups rounds (value / 128) in
    if ltb value 128 then value ∷ [] else (value % 128 + 128) ∷ rest

-- What `appendVarintValue` appends.
pub varint_value : ℕ → List ℕ
unfolding groups
varint_value value = groups 9 value

-- The rounds that are left, and what a one in the next group counts: at index 9 none is left.
pub read_rounds : ℕ → ℕ → ℕ → List ℕ → Result WireError (ℕ × List ℕ)
read_rounds zero scale value rest = err varint_too_long
read_rounds (suc rounds) scale value [] = err varint_incomplete
read_rounds (suc rounds) scale value (current ∷ rest) =
    let value' = value + current % 128 * scale in
    let more = read_rounds rounds (scale * 128) value' rest in
    if rounds == 0 && ltb 1 current
    then err varint_overflows
    else if ltb current 128
    then ok (value', rest)
    else more

pub read_varint : List ℕ → Result WireError (ℕ × List ℕ)
unfolding read_rounds
read_varint bytes = read_rounds 10 1 0 bytes
