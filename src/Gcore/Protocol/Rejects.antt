-- ===== src/Gcore/Protocol/Rejects.antt =====
-- A game message is self-delimiting: DecodeGameMessage refuses a shorter and a longer slice.
use ginx.Prelude.{
  ℕ, ◌≤◌, List, ◌∷◌, ◌++◌, length, ltb, ok, err, ◌≡◌, arith, if◌then◌else◌, length-append,
}
use ginx.Gcore.Protocol.{GameMessage, decode_game_message, incomplete_header, bad_length}
use ginx.Gcore.Protocol.RoundTrip.{decode_short}
use native.Mathlib.Decide.{dec_lt}

-- If bytes decode to a message, then with any further bytes behind them they are refused for
-- their length.
pub decode-append :
    (xs : List ℕ) (y : ℕ) (ys : List ℕ) (gm : GameMessage)
    → decode_game_message xs ≡ ok gm
    → decode_game_message (xs ++ (y ∷ ys)) ≡ err bad_length
unfolding decode_game_message
decode-append
      (m₀ ∷ m₁ ∷ m₂ ∷ m₃ ∷ v ∷ f ∷ i₀ ∷ i₁ ∷ s₀ ∷ s₁ ∷ s₂ ∷ s₃ ∷ p₀ ∷ p₁ ∷ p₂ ∷ p₃ ∷ r₀ ∷ r₁ ∷ r₂
        ∷ r₃ ∷ l₀ ∷ l₁ ∷ l₂ ∷ l₃ ∷ rest)
      y ys gm h =
    ground (arith, length-append rest (y ∷ ys))
decode-append _ y ys gm h = ground arith

decode_cut :
    (xs : List ℕ) (y : ℕ) (ys : List ℕ) (gm : GameMessage)
    → 24 ≤ length xs
    → decode_game_message (xs ++ (y ∷ ys)) ≡ ok gm
    → decode_game_message xs ≡ err bad_length
unfolding decode_game_message
decode_cut
      (m₀ ∷ m₁ ∷ m₂ ∷ m₃ ∷ v ∷ f ∷ i₀ ∷ i₁ ∷ s₀ ∷ s₁ ∷ s₂ ∷ s₃ ∷ p₀ ∷ p₁ ∷ p₂ ∷ p₃ ∷ r₀ ∷ r₁ ∷ r₂
        ∷ r₃ ∷ l₀ ∷ l₁ ∷ l₂ ∷ l₃ ∷ rest)
      y ys gm l h =
    ground (arith, length-append rest (y ∷ ys))
decode_cut _ y ys gm l h = absurd (omega arith)

-- If bytes decode to a message, then each proper prefix is refused: for an incomplete header if
-- it is shorter than 24 bytes, and for its length otherwise.
pub decode_prefix :
    (xs : List ℕ) (y : ℕ) (ys : List ℕ) (gm : GameMessage)
    → decode_game_message (xs ++ (y ∷ ys)) ≡ ok gm
    → decode_game_message xs
      ≡ (if ltb (length xs) 24 then err incomplete_header else err bad_length)
decode_prefix xs y ys gm h = elim (dec_lt (length xs) 24) [
  | yes short ↦ ground (arith, decode_short xs)
  | no whole ↦ ground (arith, decode_cut xs y ys gm)
]
