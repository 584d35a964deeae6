-- ===== src/Unity/Fields.antt =====
-- examples/unity/protocol.go: the fields of a message. A string is the list of its bytes, and a
-- `float32` is its 32 bits, which `Float32bits` and `Float32frombits` pass on unchanged.
pub mod Laws
pub mod Termination
pub mod Length
use ginx.Prelude.{
  ℕ, zero, suc, ◌+◌, ◌*◌, ◌/◌, ◌%◌, List, [], ◌∷◌, ◌++◌, ltb, if◌then◌else◌, ◌==◌, nat_eq,
  string_eq, length, take, drop, Result, ok, err, ◌>>=◌, ◌>>◌, reject, int_eq,
}
use ginx.GoMap.{size}
use ginx.Prelude.Bytes.{put_uint32}
use ginx.Unity.Varint.{
  WireError, field_number_invalid, fixed64_incomplete, bytes_incomplete, fixed32_incomplete,
  wire_type_unsupported, out_of_fuel, varint_value, read_varint,
}

-- What the callback is given for one field: the bytes of a field that has a length, or its number.
pub record Field : Type 0 where
  pub num : ℕ
  pub wire : ℕ
  pub value : List ℕ
  pub number : ℕ

unfoldable pub append_varint : List ℕ → ℕ → ℕ → List ℕ
append_varint bytes num value = bytes ++ (num * 8 % 256 ∷ varint_value value)

unfoldable pub append_fixed32 : List ℕ → ℕ → ℕ → List ℕ
append_fixed32 bytes num value = bytes ++ ((num * 8 + 5) % 256 ∷ put_uint32 value [])

unfoldable pub append_bytes : List ℕ → ℕ → List ℕ → List ℕ
append_bytes bytes num value =
    bytes ++ ((num * 8 + 2) % 256 ∷ (varint_value (length value) ++ value))

-- The first so many bytes, and those behind them.
pub split_at : ℕ → WireError → List ℕ → Result WireError (List ℕ × List ℕ)
split_at n incomplete rest =
    if ltb (length rest) n then err incomplete else ok (take n rest, drop n rest)

-- The value of a field, by its wire type.
pub read_body : ℕ → List ℕ → Result WireError (List ℕ × ℕ × List ℕ)
unfolding split_at
read_body wire rest =
    if wire == 0
    then (do (number, rest') ← read_varint rest; ok ([], number, rest'))
    else if wire == 1
    then (do (value, rest') ← split_at 8 fixed64_incomplete rest; ok (value, 0, rest'))
    else if wire == 2
    then (do
      (size, behind) ← read_varint rest
      (value, rest') ← split_at size bytes_incomplete behind
      ok (value, 0, rest'))
    else if wire == 5
    then (do (value, rest') ← split_at 4 fixed32_incomplete rest; ok (value, 0, rest'))
    else err wire_type_unsupported

pub read_field : List ℕ → Result WireError (Field × List ℕ)
unfolding read_body
read_field bytes = do
  (tag, rest) ← read_varint bytes
  reject (tag / 8 == 0) field_number_invalid
  (value, number, rest') ← read_body (tag % 8) rest
  ok (record { num = tag / 8; wire = tag % 8; value = value; number = number }, rest')

module _ {ℓ} {S : Type ℓ} (callback : S → Field → Result WireError S) where
  -- The loop over the data, with a bound on its rounds.
  pub decode_rounds : ℕ → List ℕ → S → Result WireError S
  unfolding read_field
  decode_rounds fuel [] state = ok state
  decode_rounds zero (b ∷ bs) state = err out_of_fuel
  decode_rounds (suc fuel) (b ∷ bs) state = do
    (field, rest) ← read_field (b ∷ bs)
    state' ← callback state field
    decode_rounds fuel rest state'

  -- Each field takes a byte at least, so that the length of the data bounds the rounds.
  pub decode_fields : List ℕ → S → Result WireError S
  unfolding decode_rounds
  decode_fields bytes state = decode_rounds (length bytes) bytes state
