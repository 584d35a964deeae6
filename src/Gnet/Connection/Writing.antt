-- ===== src/Gnet/Connection/Writing.antt =====
-- A packet is written whole, or the caller is told.
use ginx.Prelude.{
  ℕ, zero, suc, ◌+◌, ◌-◌, ◌≤◌, ◌≡◌, refl, sym, ap, ◌∙◌, inl, inr, List, [], ◌∷◌, ◌++◌, arith, ◌==◌,
  nat_eq, Bool-cases, Option-cases, length, take, drop, take-append-drop, append-nil, append_assoc,
  Result, ok, err,
}
use ginx.Gnet.Connection.{Writer, WriteError, write_full, write_rounds}

-- What is relied on of a writer: it writes the front of what it is given, as many bytes as it says,
-- which are no more than there are.
pub record Writes {W E : Type 0} (writer : Writer W E) (seen : W → List ℕ) : Type 0 where
  pub within : (bytes : List ℕ) (w : W) → (writer.write bytes w).0 ≤ length bytes
  pub appends :
      (bytes : List ℕ) (w : W)
      → seen ((writer.write bytes w).2) ≡ seen w ++ take (writer.write bytes w).0 bytes

module _ {W E : Type 0} (writer : Writer W E) (seen : W → List ℕ)
    (writes : Writes writer seen) where
  -- The receiver has seen this many bytes of the packet behind what it had seen before.
  abbrev pub Prefix : List ℕ → W → W → Type 0
  Prefix bytes w w' = (n : ℕ) × (n ≤ length bytes) × (seen w' ≡ seen w ++ take n bytes)

  abbrev pub Ends : List ℕ → W → Result (WriteError E) (Unit {0}) × W → Type 0
  Ends bytes w (ok u, w') = seen w' ≡ seen w ++ bytes
  Ends bytes w (err e, w') = Prefix bytes w w'

  take-nil : (n : ℕ) → take {A = ℕ} n [] ≡ []
  take-nil zero = refl
  take-nil (suc n) = refl

  take-take :
      (n k : ℕ) (bytes : List ℕ) → take n bytes ++ take k (drop n bytes) ≡ take (n + k) bytes
  take-take zero k bytes = ground arith
  take-take (suc n) k [] = ground (arith, take-nil k, take-nil (suc n + k))
  take-take (suc n) k (b ∷ bs) =
      let same : suc (n + k) ≡ suc n + k = omega arith in
      ap (λ xs. b ∷ xs) (take-take n k bs) ∙ ap (λ j. take j (b ∷ bs)) same

  length-drop : (n : ℕ) (bytes : List ℕ) → length (drop n bytes) ≡ length bytes - n
  length-drop zero bytes = ground arith
  length-drop (suc n) [] = ground arith
  length-drop (suc n) (b ∷ bs) = ground (arith, length-drop n bs)

  -- A round in front of others.
  Ends-round :
      (n : ℕ) (bytes : List ℕ) (w w' : W) (r : Result (WriteError E) (Unit {0}) × W)
      → n ≤ length bytes
      → seen w' ≡ seen w ++ take n bytes
      → Ends (drop n bytes) w' r
      → Ends bytes w r
  Ends-round n bytes w w' (ok u, v) h e i =
      i
      ∙ ap (λ xs. xs ++ drop n bytes) e
      ∙ append_assoc (seen w) (take n bytes) (drop n bytes)
      ∙ ap (λ xs. seen w ++ xs) (take-append-drop n bytes)
  Ends-round n bytes w w' (err x, v) h e (k, b, i) = (
    n + k,
    omega (arith, length-drop n bytes),
    i
        ∙ ap (λ xs. xs ++ take k (drop n bytes)) e
        ∙ append_assoc (seen w) (take n bytes) (take k (drop n bytes))
        ∙ ap (λ xs. seen w ++ xs) (take-take n k bytes),
  )

  write_rounds-Ends :
      (fuel : ℕ) (bytes : List ℕ) (w : W)
      → length bytes ≤ fuel
      → Ends bytes w (write_rounds writer fuel bytes w)
  unfolding write_rounds
  write_rounds-Ends zero [] w h = sym (append-nil (seen w))
  write_rounds-Ends (suc fuel) [] w h = sym (append-nil (seen w))
  write_rounds-Ends zero (b ∷ bs) w h = absurd (omega arith)
  write_rounds-Ends (suc fuel) (b ∷ bs) w h = elim (Option-cases (writer.write (b ∷ bs) w).1) [
    | inr (e, f) ↦
        rw (f, write_rounds)
          ((writer.write (b ∷ bs) w).0, writes.within (b ∷ bs) w, writes.appends (b ∷ bs) w)
    | inl f ↦ elim (Bool-cases ((writer.write (b ∷ bs) w).0 == 0)) [
      | inl z ↦
          rw (f, z, write_rounds)
            ((writer.write (b ∷ bs) w).0, writes.within (b ∷ bs) w, writes.appends (b ∷ bs) w)
      | inr z ↦
          rw (f, z, write_rounds)
            (Ends-round (writer.write (b ∷ bs) w).0 (b ∷ bs) w (writer.write (b ∷ bs) w).2 _
              (writes.within (b ∷ bs) w) (writes.appends (b ∷ bs) w)
              (write_rounds-Ends fuel (drop (writer.write (b ∷ bs) w).0 (b ∷ bs))
                (writer.write (b ∷ bs) w).2
                (ground (arith, h, length-drop (writer.write (b ∷ bs) w).0 (b ∷ bs), z))))
    ]
  ]

  -- On a writer that says truly how much it wrote: a packet that `write_full` has written has been
  -- seen whole, however many rounds it took, and on an error a front part of it has been seen.
  pub write_full-Ends : (bytes : List ℕ) (w : W) → Ends bytes w (write_full writer bytes w)
  unfolding write_full
  write_full-Ends bytes w = write_rounds-Ends (length bytes) bytes w (omega arith)
