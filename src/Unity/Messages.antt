-- ===== src/Unity/Messages.antt =====
-- examples/unity/protocol.go: the numbers of the messages as they are put into fields. What a message is
-- decoded into is the receiver before; on an error the source leaves it partly filled, and no caller in
-- the repository reads it then, so that the model gives the error alone.
pub mod Position
pub mod Players
pub mod Chat
pub mod Room
use ginx.Prelude.{
  ℕ, ◌-◌, ◌%◌, ◌^◌, ◌<◌, ◌≡◌, subst, inl, inr, List, [], arith, ltb, if◌then◌else◌, ◌==◌, nat_eq,
  string_eq, Bool-cases, length, Result, ok, ℤ, pos, negsuc, int_eq,
}
use ginx.Prelude.{length-eq_zero}
use ginx.Metrics.{word_of}
use ginx.Unity.Varint.{WireError}
use ginx.Unity.Fields.{Field, append_varint, append_bytes}
use ginx.Unity.Fields.Laws.{
  bytes_field, varint_field, Decodes, Decodes-append_varint, Decodes-append_bytes, Decodes-if,
}

-- An `int32`.
abbrev pub IsInt32 : ℤ → Type 0
IsInt32 (pos n) = n < 2 ^ 31
IsInt32 (negsuc n) = n < 2 ^ 31

-- `uint64(int64(v))` of an `int32`: the sign goes into the upper half.
abbrev pub extend_int32 : ℤ → ℕ
extend_int32 v = word_of v

-- `int32(number)`: the lower half, read as a signed number.
abbrev pub int32_of : ℕ → ℤ
int32_of number =
    let low = number % 2 ^ 32 in if ltb low (2 ^ 31) then pos low else negsuc ((2 ^ 32 - 1) - low)

-- `uint32(number)`
abbrev pub uint32_low : ℕ → ℕ
uint32_low number = number % 2 ^ 32

int32_of-extend : (v : ℤ) → IsInt32 v → int32_of (extend_int32 v) ≡ v
int32_of-extend (pos n) h = ground arith
int32_of-extend (negsuc n) h = ground arith

pub int32_of-IsInt32 : (number : ℕ) → IsInt32 (int32_of number)
int32_of-IsInt32 number = elim (Bool-cases (ltb (number % 2 ^ 32) (2 ^ 31))) [
  | inl e ↦ ground (arith, e)
  | inr e ↦ ground (arith, e)
]

extend_int32-bound : (v : ℤ) → extend_int32 v < 2 ^ 64
extend_int32-bound (pos n) = omega arith
extend_int32-bound (negsuc n) = omega arith

pub uint32_low-id : (v : ℕ) → v < 2 ^ 32 → uint32_low v ≡ v
uint32_low-id v h = omega arith

-- Field 3 is the text of a message, which is left out when it is empty.
abbrev pub append_text : List ℕ → List ℕ → List ℕ
append_text bytes text = if length text == 0 then bytes else append_bytes bytes 3 text

pub Decodes-append_text {ℓ} :
    {S : Type ℓ} (callback : S → Field → Result WireError S) (bytes text : List ℕ)
    (state state' state'' : S)
    → Decodes callback bytes state state'
    → (text ≡ [] → state' ≡ state'')
    → callback state' (bytes_field 3 text) ≡ ok state''
    → length text < 2 ^ 64
    → Decodes callback (append_text bytes text) state state''
Decodes-append_text callback bytes text state state' state'' h empty e ht =
    Decodes-if callback (length text == 0) bytes _ state state''
      (λ t.
        subst (λ s. Decodes callback bytes state s)
          (empty (length-eq_zero text (ground (arith, t)))) h)
      (λ t.
        Decodes-append_bytes callback bytes 3 text state state' state'' h e (omega arith)
          (omega arith) ht)

-- A number of 32 bits that is appended is decoded to itself.
pub Decodes-append_int32 {ℓ} :
    {S : Type ℓ} (callback : S → Field → Result WireError S) (bytes : List ℕ) (num : ℕ) (v : ℤ)
    (state state' state'' : S)
    → Decodes callback bytes state state'
    → IsInt32 v
    → (int32_of (extend_int32 v) ≡ v
        → callback state' (varint_field num (extend_int32 v)) ≡ ok state'')
    → 0 < num
    → num < 16
    → Decodes callback (append_varint bytes num (extend_int32 v)) state state''
Decodes-append_int32 callback bytes num v state state' state'' h hv e h₀ h₁ =
    Decodes-append_varint callback bytes num (extend_int32 v) state state' state'' h
      (e (int32_of-extend v hv)) h₀ h₁ (extend_int32-bound v)
