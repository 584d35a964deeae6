-- ===== src/Limit/TokenBucket/Examples.antt =====
-- Two tokens a second, three at once, counted in whole parts.
use ginx.Prelude.{
  ℕ, ◌+◌, ◌-◌, ◌*◌, ◌/◌, ◌≤◌, ◌≡◌, refl, sym, ap, ◌∙◌, some, List, [], ◌∷◌, arith, ltb, ok, pos,
  negsuc, length,
}
use native.Mathlib.Nat.{mul_assoc, mul-div_cancel}
use ginx.Limit.TokenBucket.{Float, TokenBucket, new_token_bucket, allow_n, take_tokens, refill}
use ginx.Limit.TokenBucket.Rounding.{grain, second, ticks, IsRounded}
use ginx.Limit.TokenBucket.Rate.{Request, serve, serve-new_token_bucket}

abbrev parts : Float ℕ
parts = record {
  of_int = λ n. n * grain;
  seconds = ticks;
  add = λ a b. a + b;
  sub = λ a b. a - b;
  mul = λ a b. a * b / grain;
  lt = ltb;
}

-- A number of parts times a whole number of tokens is a whole number of parts.
mul-grain : (t r : ℕ) → t * (r * grain) / grain ≡ t * r
mul-grain t r =
    ap (λ n. n / grain) (sym (mul_assoc t r grain)) ∙ mul-div_cancel (t * r) (omega arith)

parts-IsRounded : IsRounded parts (λ n. n)
parts-IsRounded = record {
  of_int = λ n h. omega arith;
  gain = λ d r h. omega (arith, mul-grain (ticks d) r);
  sum = λ a b h. omega arith;
  rest = λ a n e h. ground (arith, e);
  below = λ a b e h k. ground (arith, e);
  above = λ a b e h. ground (arith, e);
}

abbrev bucket : TokenBucket ℕ
bucket = record { rate = 2 * grain; burst = 3 * grain; tokens = 3 * grain; last_refill = 10 }

bucket-made : new_token_bucket parts (pos 2) (pos 3) 10 ≡ ok bucket
unfolding new_token_bucket
bucket-made = refl

abbrev asked : List Request
asked =
    record { count = pos 3; now = 10 }
    ∷ record { count = pos 1; now = 10 }
    ∷ record { count = pos 1; now = 500000010 }
    ∷ record { count = negsuc 4; now = 20 }
    ∷ []

asked-served : (serve parts (some bucket) asked).1 ≡ 4
unfolding serve allow_n take_tokens refill
asked-served = refl

serve-new_token_bucket_example :
    (serve parts (some bucket) asked).1 * grain
    ≤ 3 * grain + ((500000010 - 10) * grain / second + length asked) * 2
serve-new_token_bucket_example =
    serve-new_token_bucket parts (λ n. n) (pos 2) (pos 3) 10 500000010 bucket asked parts-IsRounded
      bucket-made (omega arith) (omega arith, (omega arith, (omega arith, (omega arith, tt))))
      (omega arith)
