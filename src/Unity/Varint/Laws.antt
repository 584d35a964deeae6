-- ===== src/Unity/Varint/Laws.antt =====
-- What is written is read back, and whatever is read is a `uint64`.
use native.Mathlib.Nat.{div-add-mod, mul_assoc, mul-le-mul_right}
use ginx.Prelude.{
  ℕ, zero, suc, ◌+◌, ◌*◌, ◌/◌, ◌%◌, ◌^◌, ◌≤◌, ◌<◌, ◌≡◌, ap, ◌≢◌, inl, inr, List, [], ◌∷◌, ◌++◌,
  arith, ltb, nat_eq, string_eq, Bool-cases, length, ok, err, int_eq,
}
use ginx.Unity.Varint.{out_of_fuel, groups, varint_value, read_rounds, read_varint}

-- The values that fit a number of rounds and one more: 2^64 for nine.
abbrev room : ℕ → ℕ
room zero = 2
room (suc k) = 128 * room k

split_value :
    (v scale acc : ℕ) → (acc + v % 128 * scale) + v / 128 * (scale * 128) ≡ acc + v * scale
split_value v scale acc =
    omega (arith, ap (λ (t : ℕ). t * scale) (div-add-mod v 128), mul_assoc (v / 128) scale 128)

read_rounds-groups :
    (k v scale acc : ℕ) (rest : List ℕ)
    → v < room k
    → read_rounds (suc k) scale acc (groups k v ++ rest) ≡ ok (acc + v * scale, rest)
unfolding groups read_rounds
read_rounds-groups zero v scale acc rest h = ground (arith, ap (λ (t : ℕ). t * scale) (small v h))
  where
    small : (v : ℕ) → v < 2 → v % 256 % 128 ≡ v
    small v h = omega arith
read_rounds-groups (suc k) v scale acc rest h = elim (Bool-cases (ltb v 128)) [
  | inl e ↦ ground (arith, e, ap (λ (t : ℕ). t * scale) (small v (ground (arith, e))))
  | inr e ↦ ground (
    arith,
    e,
    low v,
    read_rounds-groups k (v / 128) (scale * 128) (acc + v % 128 * scale) rest (omega arith),
    split_value v scale acc,
  )
]
  where
    small : (v : ℕ) → v < 128 → v % 128 ≡ v
    small v h = omega arith

    low : (v : ℕ) → (v % 128 + 128) % 128 ≡ v % 128
    low v = omega arith

-- Reading what was written for a `uint64` gives it back, with the data behind it.
pub read_varint-value :
    (v : ℕ) (rest : List ℕ) → v < 2 ^ 64 → read_varint (varint_value v ++ rest) ≡ ok (v, rest)
unfolding read_varint varint_value
read_varint-value v rest h = ground (arith, read_rounds-groups 9 v 1 0 rest h)

read_rounds-length :
    (rounds scale acc : ℕ) (bytes rest : List ℕ) (n : ℕ)
    → read_rounds rounds scale acc bytes ≡ ok (n, rest)
    → length rest < length bytes
unfolding read_rounds
read_rounds-length zero scale acc bytes rest n e = ground arith
read_rounds-length (suc k) scale acc [] rest n e = ground arith
read_rounds-length (suc k) scale acc (c ∷ cs) rest n e =
    ground (arith, read_rounds-length k (scale * 128) (acc + c % 128 * scale) cs rest n)

-- A number that was read took a byte at least, so that the reader of a message always advances.
pub read_varint-length :
    (bytes rest : List ℕ) (n : ℕ) → read_varint bytes ≡ ok (n, rest) → length rest < length bytes
unfolding read_varint
read_varint-length bytes rest n e = read_rounds-length 10 1 0 bytes rest n e

capacity : ℕ → ℕ → ℕ
capacity zero scale = scale * 2
capacity (suc k) scale = capacity k (scale * 128)

le-capacity : (k scale : ℕ) → scale * 2 ≤ capacity k scale
unfolding capacity
le-capacity zero scale = omega arith
le-capacity (suc k) scale = omega (arith, le-capacity k (scale * 128))

mul_bound : (m c scale : ℕ) → c ≤ m → c * scale ≤ m * scale
mul_bound m c scale h = mul-le-mul_right scale h

read_rounds-bound :
    (k scale acc : ℕ) (bytes rest : List ℕ) (n : ℕ)
    → read_rounds (suc k) scale acc bytes ≡ ok (n, rest)
    → acc < scale
    → n < capacity k scale
unfolding read_rounds capacity
read_rounds-bound k scale acc [] rest n e h = ground arith
read_rounds-bound zero scale acc (c ∷ cs) rest n e h =
    ground (arith, mul_bound 1 (c % 128) scale, (λ (l : c ≤ 1). low c l))
  where
    low : (c : ℕ) → c ≤ 1 → c % 128 ≤ 1
    low c l = omega arith
read_rounds-bound (suc k) scale acc (c ∷ cs) rest n e h = ground (
  arith,
  mul_bound 127 (c % 128) scale (low c),
  le-capacity k (scale * 128),
  read_rounds-bound k (scale * 128) (acc + c % 128 * scale) cs rest n,
)
  where
    low : (c : ℕ) → c % 128 ≤ 127
    low c = omega arith

-- Whatever is read is a `uint64`.
pub read_varint-bound :
    (bytes rest : List ℕ) (n : ℕ) → read_varint bytes ≡ ok (n, rest) → n < 2 ^ 64
unfolding read_varint capacity
read_varint-bound bytes rest n e = read_rounds-bound 9 1 0 bytes rest n e (omega arith)

read_rounds-ne-out_of_fuel :
    (rounds scale acc : ℕ) (bytes : List ℕ) → read_rounds rounds scale acc bytes ≢ err out_of_fuel
unfolding read_rounds
read_rounds-ne-out_of_fuel zero scale acc bytes = ground arith
read_rounds-ne-out_of_fuel (suc k) scale acc [] = ground arith
read_rounds-ne-out_of_fuel (suc k) scale acc (c ∷ cs) =
    ground (arith, read_rounds-ne-out_of_fuel k (scale * 128) (acc + c % 128 * scale) cs)

pub read_varint-ne-out_of_fuel : (bytes : List ℕ) → read_varint bytes ≢ err out_of_fuel
unfolding read_varint
read_varint-ne-out_of_fuel bytes = read_rounds-ne-out_of_fuel 10 1 0 bytes

pub read_varint-byte : (t : ℕ) (rest : List ℕ) → t < 128 → read_varint (t ∷ rest) ≡ ok (t, rest)
unfolding read_varint read_rounds
read_varint-byte t rest h = ground (arith, low t h)
  where
    low : (t : ℕ) → t < 128 → t % 128 ≡ t
    low t h = omega arith

length-groups_le : (k v : ℕ) → length (groups k v) ≤ suc k
unfolding groups
length-groups_le zero v = ground arith
length-groups_le (suc k) v = ground (arith, length-groups_le k (v / 128))

pub length-varint_value_le : (v : ℕ) → length (varint_value v) ≤ 10
unfolding varint_value
length-varint_value_le v = length-groups_le 9 v
