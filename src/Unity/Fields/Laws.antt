-- ===== src/Unity/Fields/Laws.antt =====
-- What is appended as a field is handed to the callback as that field, and the data behind it stays.
use ginx.Prelude.{
  ℕ, ◌+◌, ◌*◌, ◌/◌, ◌%◌, ◌^◌, ◌≤◌, ◌<◌, ◌≡◌, refl, subst, Bool, true, false, List, [], ◌∷◌, ◌++◌,
  arith, if◌then◌else◌, nat_eq, string_eq, length, length-append, append-nil, append_assoc, Result,
  ok, int_eq,
}
use ginx.Prelude.Bytes.{put_uint32}
use ginx.Unity.Varint.{WireError, varint_value}
use ginx.Unity.Varint.Laws.{read_varint-value, read_varint-byte}
use ginx.Unity.Fields.{
  Field, append_varint, append_fixed32, append_bytes, split_at, read_body, read_field,
  decode_rounds, decode_fields,
}
use ginx.Unity.Fields.Termination.{read_field-length, decode_rounds-enough}
use native.Mathlib.Numerals.{unary_clauses}
use ginx.Prelude.{take-length_append, drop-length_append}

abbrev pub varint_field : ℕ → ℕ → Field
varint_field num v = record { num = num; wire = 0; value = []; number = v }

abbrev pub bytes_field : ℕ → List ℕ → Field
bytes_field num value = record { num = num; wire = 2; value = value; number = 0 }

abbrev pub fixed32_field : ℕ → ℕ → Field
fixed32_field num v = record { num = num; wire = 5; value = put_uint32 v []; number = 0 }

tag_num : (num wire : ℕ) → num < 16 → wire < 8 → (num * 8 + wire) % 256 / 8 ≡ num
tag_num num wire h h' = omega arith

tag_wire : (num wire : ℕ) → num < 16 → wire < 8 → (num * 8 + wire) % 256 % 8 ≡ wire
tag_wire num wire h h' = omega arith

-- The tag of a field below 16 is one byte.
read_field-tag :
    (num wire : ℕ) (rest : List ℕ) (value : List ℕ) (number : ℕ) (rest' : List ℕ)
    → 0 < num
    → num < 16
    → wire < 8
    → read_body wire rest ≡ ok (value, number, rest')
    → read_field ((num * 8 + wire) % 256 ∷ rest)
      ≡ ok (record { num = num; wire = wire; value = value; number = number }, rest')
unfolding read_field
read_field-tag num wire rest value number rest' h h' hw e = ground (
  arith,
  e,
  read_varint-byte ((num * 8 + wire) % 256) rest (omega arith),
  tag_num num wire h' hw,
  tag_wire num wire h' hw,
)

read_body-varint :
    (v : ℕ) (rest : List ℕ) → v < 2 ^ 64 → read_body 0 (varint_value v ++ rest) ≡ ok ([], v, rest)
unfolding read_body
read_body-varint v rest h = rw (read_varint-value v rest h) refl

read_body-bytes :
    (value rest : List ℕ)
    → length value < 2 ^ 64
    → read_body 2 (varint_value (length value) ++ (value ++ rest)) ≡ ok (value, 0, rest)
unfolding read_body split_at
read_body-bytes value rest h = ground (
  arith,
  read_varint-value (length value) (value ++ rest) h,
  length-append value rest,
  take-length_append value rest,
  drop-length_append value rest,
)

read_body-fixed32 :
    (v : ℕ) (rest : List ℕ) → read_body 5 (put_uint32 v [] ++ rest) ≡ ok (put_uint32 v [], 0, rest)
unfolding read_body split_at
read_body-fixed32 v rest = ground arith

module _ {ℓ} {S : Type ℓ} (callback : S → Field → Result WireError S) where
  -- One field takes the state on, and the rest is decoded from there.
  pub decode_fields-field :
      (bytes rest : List ℕ) (field : Field) (state state' : S)
      → read_field bytes ≡ ok (field, rest)
      → callback state field ≡ ok state'
      → decode_fields callback bytes state ≡ decode_fields callback rest state'
  unfolding decode_fields decode_rounds
  decode_fields-field [] rest field state state' e e' =
      absurd (omega (arith, read_field-length [] rest field e))
  decode_fields-field (b ∷ bs) rest field state state' e e' = ground (
    arith,
    e,
    e',
    decode_rounds-enough callback (length bs) (length rest) rest state' short (omega arith),
  )
    where
      short : length rest ≤ length bs
      short = omega (arith, read_field-length (b ∷ bs) rest field e)

  -- In front of anything, these bytes take the state from the one to the other.
  abbrev pub Decodes : List ℕ → S → S → Type ℓ
  Decodes bytes state state' =
      (rest : List ℕ)
      → decode_fields callback (bytes ++ rest) state ≡ decode_fields callback rest state'

  pub Decodes-nil : (state : S) → Decodes [] state state
  Decodes-nil state rest = refl

  Decodes-field :
      (bytes added : List ℕ) (field : Field) (state state' state'' : S)
      → Decodes bytes state state'
      → ((rest : List ℕ) → read_field (added ++ rest) ≡ ok (field, rest))
      → callback state' field ≡ ok state''
      → Decodes (bytes ++ added) state state''
  Decodes-field bytes added field state state' state'' h read e rest =
      rw (append_assoc bytes added rest, h (added ++ rest))
        (decode_fields-field (added ++ rest) rest field state' state'' (read rest) e)

  pub Decodes-append_varint :
      (bytes : List ℕ) (num v : ℕ) (state state' state'' : S)
      → Decodes bytes state state'
      → callback state' (varint_field num v) ≡ ok state''
      → 0 < num
      → num < 16
      → v < 2 ^ 64
      → Decodes (append_varint bytes num v) state state''
  unfolding append_varint
  Decodes-append_varint bytes num v state state' state'' h e h₀ h₁ hv =
      Decodes-field bytes _ (varint_field num v) state state' state'' h read e
    where
      read :
          (rest : List ℕ)
          → read_field ((num * 8 % 256 ∷ varint_value v) ++ rest) ≡ ok (varint_field num v, rest)
      read rest =
          simp unary_clauses at
            (read_field-tag num 0 _ [] v rest h₀ h₁ (omega arith) (read_body-varint v rest hv))

  pub Decodes-append_bytes :
      (bytes : List ℕ) (num : ℕ) (value : List ℕ) (state state' state'' : S)
      → Decodes bytes state state'
      → callback state' (bytes_field num value) ≡ ok state''
      → 0 < num
      → num < 16
      → length value < 2 ^ 64
      → Decodes (append_bytes bytes num value) state state''
  unfolding append_bytes
  Decodes-append_bytes bytes num value state state' state'' h e h₀ h₁ hv =
      Decodes-field bytes _ (bytes_field num value) state state' state'' h read e
    where
      read :
          (rest : List ℕ)
          → read_field (((num * 8 + 2) % 256 ∷ (varint_value (length value) ++ value)) ++ rest)
            ≡ ok (bytes_field num value, rest)
      read rest =
          rw (append_assoc (varint_value (length value)) value rest) (
            read_field-tag num 2 _ value 0 rest h₀ h₁ (omega arith) (read_body-bytes value rest hv))

  pub Decodes-append_fixed32 :
      (bytes : List ℕ) (num v : ℕ) (state state' state'' : S)
      → Decodes bytes state state'
      → callback state' (fixed32_field num v) ≡ ok state''
      → 0 < num
      → num < 16
      → Decodes (append_fixed32 bytes num v) state state''
  unfolding append_fixed32
  Decodes-append_fixed32 bytes num v state state' state'' h e h₀ h₁ =
      Decodes-field bytes _ (fixed32_field num v) state state' state'' h read e
    where
      read :
          (rest : List ℕ)
          → read_field (((num * 8 + 5) % 256 ∷ put_uint32 v []) ++ rest)
            ≡ ok (fixed32_field num v, rest)
      read rest =
          read_field-tag num 5 _ (put_uint32 v []) 0 rest h₀ h₁ (omega arith)
            (read_body-fixed32 v rest)

  pub decode_fields-Decodes :
      (bytes : List ℕ) (state state' : S)
      → Decodes bytes state state'
      → decode_fields callback bytes state ≡ ok state'
  unfolding decode_fields decode_rounds
  decode_fields-Decodes bytes state state' h =
      subst (λ bs. decode_fields callback bs state ≡ ok state') (append-nil bytes) (h [])

  pub Decodes-if :
      (test : Bool) (xs ys : List ℕ) (state state' : S)
      → (test ≡ true → Decodes xs state state')
      → (test ≡ false → Decodes ys state state')
      → Decodes (if test then xs else ys) state state'
  Decodes-if true xs ys state state' h h' = h refl
  Decodes-if false xs ys state state' h h' = h' refl
