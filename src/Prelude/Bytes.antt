-- ===== src/Prelude/Bytes.antt =====
-- encoding/binary: little-endian words as bytes. A byte slice is a list of numbers below 256.
use Prim.Native.Nat.{ℕ, ◌+◌, ◌*◌, ◌/◌, ◌%◌, ◌^◌, ◌<◌, ◌≤◌}
use mathlib.Core.Path.{◌≡◌, sym}
use mathlib.Core.List.{List, [], ◌∷◌}
use native.Mathlib.Omega.{arith}
use ginx.Prelude.Lists.{All, length}

abbrev pub IsByte : ℕ → Type 0
IsByte b = b < 256

abbrev pub IsBytes : List ℕ → Type 0
IsBytes = All IsByte

abbrev pub put_uint16 : ℕ → List ℕ → List ℕ
put_uint16 v rest = (v % 256) ∷ (v / 256 % 256) ∷ rest

abbrev pub put_uint32 : ℕ → List ℕ → List ℕ
put_uint32 v rest = (v % 256) ∷ (v / 2 ^ 8 % 256) ∷ (v / 2 ^ 16 % 256) ∷ (v / 2 ^ 24 % 256) ∷ rest

abbrev pub uint16_of : ℕ → ℕ → ℕ
uint16_of a b = a + b * 2 ^ 8

abbrev pub uint32_of : ℕ → ℕ → ℕ → ℕ → ℕ
uint32_of a b c d = a + b * 2 ^ 8 + c * 2 ^ 16 + d * 2 ^ 24

pub uint16_of-put : (v : ℕ) → v < 2 ^ 16 → uint16_of (v % 256) (v / 256 % 256) ≡ v
uint16_of-put v h = omega arith

pub uint32_of-put :
    (v : ℕ)
    → v < 2 ^ 32
    → uint32_of (v % 256) (v / 2 ^ 8 % 256) (v / 2 ^ 16 % 256) (v / 2 ^ 24 % 256) ≡ v
uint32_of-put v h = omega arith

-- Four bytes are the bytes of the word that they make.
pub put-uint32_of :
    (a b c d : ℕ) (rest : List ℕ)
    → a < 256
    → b < 256
    → c < 256
    → d < 256
    → put_uint32 (uint32_of a b c d) rest ≡ a ∷ b ∷ c ∷ d ∷ rest
put-uint32_of a b c d rest ha hb hc hd = ground arith

pub uint32_of-lt :
    (a b c d : ℕ) → a < 256 → b < 256 → c < 256 → d < 256 → uint32_of a b c d < 2 ^ 32
uint32_of-lt a b c d ha hb hc hd = omega arith

-- Four bytes at least are a word and the bytes behind it.
pub split_word :
    (xs : List ℕ)
    → 4 ≤ length xs
    → IsBytes xs
    → (v : ℕ) × (ys : List ℕ) × (v < 2 ^ 32) × (xs ≡ put_uint32 v ys) × IsBytes ys
split_word [] h b = absurd (omega arith)
split_word (x₀ ∷ []) h b = absurd (omega arith)
split_word (x₀ ∷ x₁ ∷ []) h b = absurd (omega arith)
split_word (x₀ ∷ x₁ ∷ x₂ ∷ []) h b = absurd (omega arith)
split_word (x₀ ∷ x₁ ∷ x₂ ∷ x₃ ∷ ys) h (b₀, (b₁, (b₂, (b₃, bs)))) = (
  uint32_of x₀ x₁ x₂ x₃,
  ys,
  uint32_of-lt x₀ x₁ x₂ x₃ b₀ b₁ b₂ b₃,
  sym (put-uint32_of x₀ x₁ x₂ x₃ ys b₀ b₁ b₂ b₃),
  bs,
)

pub put-uint16_of :
    (a b : ℕ) (rest : List ℕ) → a < 256 → b < 256 → put_uint16 (uint16_of a b) rest ≡ a ∷ b ∷ rest
put-uint16_of a b rest ha hb = ground arith

pub uint16_of-lt : (a b : ℕ) → a < 256 → b < 256 → uint16_of a b < 2 ^ 16
uint16_of-lt a b ha hb = omega arith
