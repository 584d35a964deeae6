-- ===== src/Gnet/DataPack/Stream.antt =====
-- io.Reader as `ReadMessage` uses it: the bytes still to come, in the pieces in which the network
-- delivers them, and how the stream ends. `read_full` is io.ReadFull.
use ginx.Prelude.{
  ℕ, ◌-◌, ◌≤◌, ◌<◌, List, [], ◌∷◌, ◌++◌, length, take, drop, ltb, ◌==◌, nat_eq, ◌≡◌, refl,
  if◌then◌else◌, arith, Result, ok, err, length-append, take-length_append, drop-length_append, ap,
  suc, zero, ◌∙◌,
}

pub data IoError : Type 0 where
  eof unexpected_eof failure : IoError

pub record Reader : Type 0 where
  pub chunks : List (List ℕ)
  pub ending : IoError

-- The bytes that the reader still holds, however they are cut.
abbrev pub flat : List (List ℕ) → List ℕ
flat [] = []
flat (c ∷ cs) = c ++ flat cs

abbrev pub contents : Reader → List ℕ
contents r = flat r.chunks

-- One `Read` gives the rest of a piece at most; the loop asks until `n` bytes are there.
read_chunks : ℕ → List (List ℕ) → List ℕ × List (List ℕ)
read_chunks n [] = ([], [])
read_chunks n (c ∷ cs) =
    let later = read_chunks (n - length c) cs in
    if ltb n (length c) then (take n c, drop n c ∷ cs) else (c ++ later.0, later.1)

-- An end inside the buffer is an unexpected one.
abbrev pub ended : ℕ → IoError → IoError
ended n eof = if n == 0 then eof else unexpected_eof
ended n unexpected_eof = unexpected_eof
ended n failure = failure

unfoldable pub read_full : Reader → ℕ → Result IoError (List ℕ × Reader)
unfolding read_chunks
read_full r n =
    let got = read_chunks n r.chunks in
    if length got.0 == n
    then ok (got.0, record r { chunks = got.1 })
    else err (ended (length got.0) r.ending)

module _ {ℓ} {A : Type ℓ} where
  take-append_within : (n : ℕ) (xs ys : List A) → n ≤ length xs → take n (xs ++ ys) ≡ take n xs
  take-append_within zero xs ys h = refl
  take-append_within (suc n) [] ys h = absurd (omega arith)
  take-append_within (suc n) (x ∷ xs) ys h = ap (◌∷◌ x) (take-append_within n xs ys (omega arith))

  take-append_over :
      (n : ℕ) (xs ys : List A) → length xs ≤ n → take n (xs ++ ys) ≡ xs ++ take (n - length xs) ys
  take-append_over n [] ys h = ap (λ k. take k ys) (omega arith)
  take-append_over zero (x ∷ xs) ys h = absurd (omega arith)
  take-append_over (suc n) (x ∷ xs) ys h =
      ap (◌∷◌ x) (take-append_over n xs ys (omega arith) ∙ ap (λ k. xs ++ take k ys) (omega arith))

  drop-append_within :
      (n : ℕ) (xs ys : List A) → n ≤ length xs → drop n (xs ++ ys) ≡ drop n xs ++ ys
  drop-append_within zero xs ys h = refl
  drop-append_within (suc n) [] ys h = absurd (omega arith)
  drop-append_within (suc n) (x ∷ xs) ys h = drop-append_within n xs ys (omega arith)

  drop-append_over :
      (n : ℕ) (xs ys : List A) → length xs ≤ n → drop n (xs ++ ys) ≡ drop (n - length xs) ys
  drop-append_over n [] ys h = ap (λ k. drop k ys) (omega arith)
  drop-append_over zero (x ∷ xs) ys h = absurd (omega arith)
  drop-append_over (suc n) (x ∷ xs) ys h =
      drop-append_over n xs ys (omega arith) ∙ ap (λ k. drop k ys) (omega arith)

  pub length-take_within : (n : ℕ) (xs : List A) → n ≤ length xs → length (take n xs) ≡ n
  length-take_within zero xs h = refl
  length-take_within (suc n) [] h = absurd (omega arith)
  length-take_within (suc n) (x ∷ xs) h = ap suc (length-take_within n xs (omega arith))

  take_all : (n : ℕ) (xs : List A) → length xs ≤ n → take n xs ≡ xs
  take_all zero [] h = refl
  take_all zero (x ∷ xs) h = absurd (omega arith)
  take_all (suc n) [] h = refl
  take_all (suc n) (x ∷ xs) h = ap (◌∷◌ x) (take_all n xs (omega arith))

-- However the bytes are cut, what was read and what is left are those of the whole stream.
read_chunks-flat :
    (n : ℕ) (cs : List (List ℕ))
    → ((read_chunks n cs).0 ≡ take n (flat cs)) × (flat (read_chunks n cs).1 ≡ drop n (flat cs))
unfolding read_chunks
read_chunks-flat zero [] = (refl, refl)
read_chunks-flat (suc n) [] = (refl, refl)
read_chunks-flat n (c ∷ cs) = ground (
  arith,
  read_chunks-flat (n - length c) cs,
  take-append_within n c (flat cs),
  take-append_over n c (flat cs),
  drop-append_within n c (flat cs),
  drop-append_over n c (flat cs),
)

module _ (r : Reader) (n : ℕ) where
  -- With `n` bytes to come a read succeeds, and depends on no piece's length.
  pub read_full_enough :
      n ≤ length (contents r)
      → (s : Reader) × (read_full r n ≡ ok (take n (contents r), s))
        × (contents s ≡ drop n (contents r))
        × (s.ending ≡ r.ending)
  unfolding read_full
  read_full_enough h =
      let (first, second) = read_chunks-flat n r.chunks in
      (
        record r { chunks = (read_chunks n r.chunks).1 },
        ground (arith, first, length-take_within n (contents r)),
        second,
        refl,
      )

  -- With fewer it fails, and says whether anything was there.
  pub read_full_short :
      length (contents r) < n → read_full r n ≡ err (ended (length (contents r)) r.ending)
  unfolding read_full
  read_full_short h =
      let (first, second) = read_chunks-flat n r.chunks in
      ground (arith, first, take_all n (contents r))

  -- What was asked for in full is what is read, and what follows is left.
  pub read_full_exact :
      (xs ys : List ℕ)
      → length xs ≡ n
      → contents r ≡ xs ++ ys
      → (s : Reader) × (read_full r n ≡ ok (xs, s)) × (contents s ≡ ys) × (s.ending ≡ r.ending)
  read_full_exact xs ys l e =
      let (s, read, left, same) = read_full_enough (rw e (omega (arith, length-append xs ys))) in
      (
        s,
        ground (arith, read, e, l, take-length_append xs ys),
        ground (arith, left, e, l, drop-length_append xs ys),
        same,
      )
