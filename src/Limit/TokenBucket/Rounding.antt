-- ===== src/Limit/TokenBucket/Rounding.antt =====
-- What the bounds of a bucket rest on of `float64`: rounding keeps the order, and whole multiples of
-- 2^-20 up to 2^33 are exact.
use ginx.Prelude.{ℕ, ◌+◌, ◌*◌, ◌/◌, ◌^◌, ◌≤◌, ◌≡◌, true, false, arith}
use ginx.Limit.TokenBucket.{Float}

-- The parts of a token, and the nanoseconds of a second.
abbrev pub grain : ℕ
grain = 1048576

abbrev pub second : ℕ
second = 1000000000

-- A time in parts of a second, rounded up.
abbrev pub ticks : ℕ → ℕ
ticks nanoseconds = (nanoseconds * grain + 999999999) / second

-- `units x` is the number of parts in `x`, rounded up, and more than 2^53 for a NaN. What is at most a
-- number of parts up to 2^53 stays so when it is rounded.
pub record IsRounded {F : Type 0} (float : Float F) (units : F → ℕ) : Type 0 where
  pub of_int : (n : ℕ) → n * grain ≤ 2 ^ 53 → units (float.of_int n) ≤ n * grain
  pub gain :
      (d r : ℕ)
      → ticks d * r ≤ 2 ^ 53
      → units (float.mul (float.seconds d) (float.of_int r)) ≤ ticks d * r
  pub sum : (a b : F) → units a + units b ≤ 2 ^ 53 → units (float.add a b) ≤ units a + units b
  pub rest :
      (a : F) (n : ℕ)
      → float.lt a (float.of_int n) ≡ false
      → units a ≤ 2 ^ 53
      → units (float.sub a (float.of_int n)) + n * grain ≤ units a
  pub below :
      (a b : F) → float.lt a b ≡ false → units a ≤ 2 ^ 53 → units b ≤ 2 ^ 53 → units b ≤ units a
  pub above : (a b : F) → float.lt a b ≡ true → units b ≤ 2 ^ 53 → units a ≤ units b

pub ticks-le : (d e : ℕ) → d ≤ e → ticks d ≤ ticks e
ticks-le d e h = omega arith

pub ticks-bound : (d : ℕ) → ticks d * second ≤ d * grain + second
ticks-bound d = omega arith
