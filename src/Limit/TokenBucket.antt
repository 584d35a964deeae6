-- ===== src/Limit/TokenBucket.antt =====
-- limit/token_bucket.go. The amounts are `float64`, which is a parameter with the operations that the
-- code uses. Each reading of the clock is an argument, in nanoseconds.
pub mod Rounding
pub mod Rate
mod Examples
use ginx.Prelude.{
  ℕ, ◌-◌, Bool, true, false, not, Option, none, some, leb, if◌then◌else◌, Result, ok, ◌>>=◌, ◌>>◌,
  reject, ℤ, pos, is_positive, to_nat,
}

pub data BucketError : Type 0 where
  bad_rate bad_burst : BucketError

-- `float64(n)`, `Duration.Seconds`, the arithmetic, and `<`, which is false wherever a NaN stands.
pub record Float (F : Type 0) : Type 0 where
  pub of_int : ℕ → F
  pub seconds : ℕ → F
  pub add : F → F → F
  pub sub : F → F → F
  pub mul : F → F → F
  pub lt : F → F → Bool

pub record TokenBucket (F : Type 0) : Type 0 where
  pub rate : F
  pub burst : F
  pub tokens : F
  pub last_refill : ℕ

module _ {F : Type 0} (float : Float F) where
  pub new_token_bucket : ℤ → ℤ → ℕ → Result BucketError (TokenBucket F)
  new_token_bucket rate burst now = do
    reject (not (is_positive rate)) bad_rate
    reject (not (is_positive burst)) bad_burst
    ok (record {
      rate = float.of_int (to_nat rate);
      burst = float.of_int (to_nat burst);
      tokens = float.of_int (to_nat burst);
      last_refill = now;
    })

  -- A clock that did not move forward changes nothing.
  pub refill : TokenBucket F → ℕ → TokenBucket F
  refill tb now =
      if leb now tb.last_refill
      then tb
      else let grown =
          float.add tb.tokens (float.mul (float.seconds (now - tb.last_refill)) tb.rate) in
        record tb {
          tokens = if float.lt tb.burst grown then tb.burst else grown;
          last_refill = now;
        }

  -- What `AllowN` does under the lock, for a count above 0.
  pub take_tokens : TokenBucket F → ℕ → ℕ → Bool × TokenBucket F
  unfolding refill
  take_tokens tb count now =
      let filled = refill tb now in
      if float.lt filled.tokens (float.of_int count)
      then (false, filled)
      else (true, record filled { tokens = float.sub filled.tokens (float.of_int count) })

  -- A nil bucket and a count that is not positive are refused, and change nothing.
  pub allow_n : Option (TokenBucket F) → ℤ → ℕ → Bool × Option (TokenBucket F)
  unfolding take_tokens
  allow_n none count now = (false, none)
  allow_n (some tb) count now =
      let (allowed, tb') = take_tokens tb (to_nat count) now in
      if is_positive count then (allowed, some tb') else (false, some tb)

  pub allow : Option (TokenBucket F) → ℕ → Bool × Option (TokenBucket F)
  allow tb now = allow_n tb (pos 1) now
