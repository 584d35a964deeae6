-- ===== src/Unity/Fields/Length.antt =====
-- How long a field is when it is appended.
use ginx.Prelude.{
  ℕ, ◌+◌, ◌*◌, ◌%◌, ◌≤◌, ◌≡◌, List, ◌∷◌, ◌++◌, arith, nat_eq, string_eq, length, length-append,
  int_eq,
}
use ginx.Unity.Varint.{varint_value}
use ginx.Unity.Varint.Laws.{length-varint_value_le}
use ginx.Unity.Fields.{append_varint, append_fixed32, append_bytes}

pub length-append_varint_le :
    (bytes : List ℕ) (num v : ℕ) → length (append_varint bytes num v) ≤ length bytes + 11
unfolding append_varint
length-append_varint_le bytes num v =
    omega (arith, length-append bytes (num * 8 % 256 ∷ varint_value v), length-varint_value_le v)

pub length-append_fixed32 :
    (bytes : List ℕ) (num v : ℕ) → length (append_fixed32 bytes num v) ≡ length bytes + 5
unfolding append_fixed32
length-append_fixed32 bytes num v = length-append bytes _

pub length-append_bytes_le :
    (bytes : List ℕ) (num : ℕ) (value : List ℕ)
    → length (append_bytes bytes num value) ≤ length bytes + 11 + length value
unfolding append_bytes
length-append_bytes_le bytes num value = omega (
  arith,
  length-append bytes ((num * 8 + 2) % 256 ∷ (varint_value (length value) ++ value)),
  length-append (varint_value (length value)) value,
  length-varint_value_le (length value),
)
