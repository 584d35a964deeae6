-- ===== src/Unity/Fields/Termination.antt =====
-- The loop over the fields of a message ends: each field takes a byte at least.
use ginx.Prelude.{
  ℕ, zero, suc, ◌%◌, ◌≤◌, ◌<◌, ◌≡◌, refl, ◌≢◌, inl, inr, List, [], ◌∷◌, arith, nat_eq, string_eq,
  length, drop, Result, ok, err, Result-cases, >>=-ne, int_eq,
}
use ginx.Unity.Varint.{WireError, out_of_fuel, read_varint}
use ginx.Unity.Varint.Laws.{read_varint-length, read_varint-ne-out_of_fuel}
use ginx.Unity.Fields.{Field, split_at, read_body, read_field, decode_rounds, decode_fields}

length-drop_le : (n : ℕ) (xs : List ℕ) → length (drop n xs) ≤ length xs
length-drop_le zero xs = omega arith
length-drop_le (suc n) [] = omega arith
length-drop_le (suc n) (x ∷ xs) = omega (arith, length-drop_le n xs)

read_body-length :
    (wire : ℕ) (bytes value rest : List ℕ) (number : ℕ)
    → read_body wire bytes ≡ ok (value, number, rest)
    → length rest ≤ length bytes
unfolding read_body split_at
read_body-length wire bytes value rest number eq = elim (Result-cases (read_varint bytes)) [
  | inl ((n, behind), e) ↦ ground (
    arith,
    e,
    eq,
    read_varint-length bytes behind n e,
    length-drop_le 8 bytes,
    length-drop_le n behind,
    length-drop_le 4 bytes,
  )
  | inr (x, e) ↦ ground (arith, e, eq, length-drop_le 8 bytes, length-drop_le 4 bytes)
]

pub read_field-length :
    (bytes rest : List ℕ) (field : Field)
    → read_field bytes ≡ ok (field, rest)
    → length rest < length bytes
unfolding read_field
read_field-length bytes rest field eq = elim (Result-cases (read_varint bytes)) [
  | inl ((tag, behind), e) ↦ elim (Result-cases (read_body (tag % 8) behind)) [
    | inl ((value, number, rest'), e') ↦ ground (
      arith,
      e,
      e',
      eq,
      read_varint-length bytes behind tag e,
      read_body-length (tag % 8) behind value rest' number e',
    )
    | inr (x, e') ↦ ground (arith, e, e', eq)
  ]
  | inr (x, e) ↦ ground (arith, e, eq)
]

read_body-ne-out_of_fuel : (wire : ℕ) (bytes : List ℕ) → read_body wire bytes ≢ err out_of_fuel
unfolding read_body split_at
read_body-ne-out_of_fuel wire bytes = elim (Result-cases (read_varint bytes)) [
  | inl (_, e) ↦ ground (arith, e)
  | inr (x, e) ↦ ground (arith, e, read_varint-ne-out_of_fuel bytes)
]

read_field-ne-out_of_fuel : (bytes : List ℕ) → read_field bytes ≢ err out_of_fuel
unfolding read_field
read_field-ne-out_of_fuel bytes = elim (Result-cases (read_varint bytes)) [
  | inl ((tag, behind), e) ↦ elim (Result-cases (read_body (tag % 8) behind)) [
    | inl (_, e') ↦ ground (arith, e, e')
    | inr (x, e') ↦ ground (arith, e, e', read_body-ne-out_of_fuel (tag % 8) behind)
  ]
  | inr (x, e) ↦ ground (arith, e, read_varint-ne-out_of_fuel bytes)
]

module _ {ℓ} {S : Type ℓ} (callback : S → Field → Result WireError S) where
  -- More rounds than there are bytes change nothing.
  pub decode_rounds-enough :
      (fuel more : ℕ) (bytes : List ℕ) (state : S)
      → length bytes ≤ fuel
      → length bytes ≤ more
      → decode_rounds callback fuel bytes state ≡ decode_rounds callback more bytes state
  unfolding decode_rounds
  decode_rounds-enough fuel more [] state h h' = refl
  decode_rounds-enough zero more (b ∷ bs) state h h' = absurd (omega arith)
  decode_rounds-enough (suc fuel) zero (b ∷ bs) state h h' = absurd (omega arith)
  decode_rounds-enough (suc fuel) (suc more) (b ∷ bs) state h h' =
      elim (Result-cases (read_field (b ∷ bs))) [
        | inl ((field, rest), e) ↦ elim (Result-cases (callback state field)) [
          | inl (state', e') ↦ ground (
            arith,
            e,
            e',
            decode_rounds-enough fuel more rest state' (short field rest e) (short' field rest e),
          )
          | inr (x, e') ↦ ground (arith, e, e')
        ]
        | inr (x, e) ↦ ground (arith, e)
      ]
    where
      short :
          (field : Field) (rest : List ℕ)
          → read_field (b ∷ bs) ≡ ok (field, rest)
          → length rest ≤ fuel
      short field rest e = omega (arith, read_field-length (b ∷ bs) rest field e)

      short' :
          (field : Field) (rest : List ℕ)
          → read_field (b ∷ bs) ≡ ok (field, rest)
          → length rest ≤ more
      short' field rest e = omega (arith, read_field-length (b ∷ bs) rest field e)

  decode_rounds-ne-out_of_fuel :
      (fuel : ℕ) (bytes : List ℕ) (state : S)
      → length bytes ≤ fuel
      → ((s : S) (field : Field) → callback s field ≢ err out_of_fuel)
      → decode_rounds callback fuel bytes state ≢ err out_of_fuel
  unfolding decode_rounds
  decode_rounds-ne-out_of_fuel fuel [] state h never = ground arith
  decode_rounds-ne-out_of_fuel zero (b ∷ bs) state h never = absurd (omega arith)
  decode_rounds-ne-out_of_fuel (suc fuel) (b ∷ bs) state h never =
      >>=-ne (read_field (b ∷ bs)) _ out_of_fuel (read_field-ne-out_of_fuel (b ∷ bs))
        λ (field, rest) e.
          >>=-ne (callback state field) _ out_of_fuel (never state field)
            λ state' e'. decode_rounds-ne-out_of_fuel fuel rest state' (short field rest e) never
    where
      short :
          (field : Field) (rest : List ℕ)
          → read_field (b ∷ bs) ≡ ok (field, rest)
          → length rest ≤ fuel
      short field rest e = omega (arith, read_field-length (b ∷ bs) rest field e)

  -- The bound on the rounds is never met: the loop ends by itself.
  pub decode_fields-ne-out_of_fuel :
      (bytes : List ℕ) (state : S)
      → ((s : S) (field : Field) → callback s field ≢ err out_of_fuel)
      → decode_fields callback bytes state ≢ err out_of_fuel
  unfolding decode_fields
  decode_fields-ne-out_of_fuel bytes state never =
      decode_rounds-ne-out_of_fuel (length bytes) bytes state (omega arith) never
