-- ===== src/Limit/TokenBucket/Rate.antt =====
-- What a bucket lets through in any time.
use ginx.Prelude.{
  ℕ, suc, ◌+◌, ◌-◌, ◌*◌, ◌/◌, ◌^◌, ◌≤◌, ◌≡◌, refl, sym, subst, inl, inr, Bool, Option, some, List,
  [], ◌∷◌, arith, leb, if◌then◌else◌, Bool-cases, All, ok, ℤ, is_positive, to_nat, length,
}
use native.Mathlib.Nat.{add-mul, mul-le-mul_right}
use ginx.Limit.TokenBucket.{Float, TokenBucket, new_token_bucket, refill, take_tokens, allow_n}
use ginx.Limit.TokenBucket.Rounding.{grain, second, ticks, IsRounded, ticks-le, ticks-bound}

-- A call of `AllowN`.
pub record Request : Type 0 where
  pub count : ℤ
  pub now : ℕ

abbrev pub granted : Bool → ℤ → ℕ
granted allowed count = if allowed then to_nat count else 0

module _ {F : Type 0} (float : Float F) where
  -- The bucket after the requests, and how many tokens were let through.
  unfoldable pub serve : Option (TokenBucket F) → List Request → Option (TokenBucket F) × ℕ
  unfolding allow_n
  serve tb [] = (tb, 0)
  serve tb (r ∷ rs) =
      let (allowed, tb') = allow_n float tb r.count r.now in
      let (end, total) = serve tb' rs in (end, granted allowed r.count + total)

module _ {F : Type 0} (float : Float F) (units : F → ℕ) (v : IsRounded float units)
    (rate burst start end : ℕ) (within : burst * grain + ticks (end - start) * rate ≤ 2 ^ 53) where
  -- A bucket of this rate and burst, made at the start.
  record IsBucket (tb : TokenBucket F) : Type 0 where
    same_rate : tb.rate ≡ float.of_int rate
    limit : units tb.burst ≤ burst * grain
    full : units tb.tokens ≤ burst * grain
    since : start ≤ tb.last_refill
    until : tb.last_refill ≤ end

  -- From a bucket to a later one after a number of calls that let an amount through.
  record Passes (tb tb' : TokenBucket F) (amount calls : ℕ) : Type 0 where
    bucket : IsBucket tb'
    gained : ℕ
    later : tb.last_refill ≤ tb'.last_refill
    timed : gained * second ≤ (tb'.last_refill - tb.last_refill) * grain + calls * second
    paid : amount * grain + units tb'.tokens ≤ units tb.tokens + gained * rate

  Passes-idle : (tb : TokenBucket F) (calls : ℕ) → IsBucket tb → Passes tb tb 0 calls
  Passes-idle tb calls b = record {
    bucket = b;
    gained = 0;
    later = omega arith;
    timed = omega arith;
    paid = omega arith;
  }

  refill-Passes :
      (tb : TokenBucket F) (now : ℕ) → IsBucket tb → now ≤ end → Passes tb (refill float tb now) 0 1
  unfolding refill
  refill-Passes tb now b h = elim (Bool-cases (leb now tb.last_refill)) [
    | inl e ↦ simp (e, refill) (Passes-idle tb 1 b)
    | inr e ↦
        let d = now - tb.last_refill in
        let gain = float.mul (float.seconds d) tb.rate in
        let grown = float.add tb.tokens gain in
        let short : ticks d * rate ≤ ticks (end - start) * rate =
          mul-le-mul_right rate (ticks-le d (end - start) (omega (arith, h, b.since))) in
        let gain_le : units gain ≤ ticks d * rate =
          subst (λ r. units (float.mul (float.seconds d) r) ≤ ticks d * rate) (sym b.same_rate)
            (v.gain d rate (omega (arith, within, short))) in
        let grown_le : units grown ≤ units tb.tokens + units gain =
          v.sum tb.tokens gain (omega (arith, within, short, gain_le, b.full)) in
        let tick = ticks-bound d in
        elim (Bool-cases (float.lt tb.burst grown)) [
          | inl c ↦
              let capped =
                v.above tb.burst grown c
                  (omega (arith, within, short, gain_le, grown_le, b.full)) in
              simp (e, c, refill)
                (record {
                  bucket = record {
                    same_rate = b.same_rate;
                    limit = b.limit;
                    full = b.limit;
                    since = ground (arith, e, b.since);
                    until = h;
                  };
                  gained = ticks d;
                  later = ground (arith, e);
                  timed = omega (arith, tick);
                  paid = omega (arith, capped, grown_le, gain_le);
                })
          | inr c ↦
              let kept =
                v.below tb.burst grown c (omega (arith, within, b.limit))
                  (omega (arith, within, short, gain_le, grown_le, b.full)) in
              simp (e, c, refill)
                (record {
                  bucket = record {
                    same_rate = b.same_rate;
                    limit = b.limit;
                    full = omega (arith, kept, b.limit);
                    since = ground (arith, e, b.since);
                    until = h;
                  };
                  gained = ticks d;
                  later = ground (arith, e);
                  timed = omega (arith, tick);
                  paid = omega (arith, grown_le, gain_le);
                })
        ]
  ]

  take_tokens-Passes :
      (tb : TokenBucket F) (count now : ℕ)
      → IsBucket tb
      → now ≤ end
      → Passes tb
          (take_tokens float tb count now).1
          (if (take_tokens float tb count now).0 then count else 0)
          1
  unfolding take_tokens
  take_tokens-Passes tb count now b h =
      let p = refill-Passes tb now b h in
      let filled = refill float tb now in
      elim (Bool-cases (float.lt filled.tokens (float.of_int count))) [
        | inl e ↦ simp (e, take_tokens) p
        | inr e ↦
            let left = v.rest filled.tokens count e (omega (arith, within, p.bucket.full)) in
            simp (e, take_tokens)
              (record {
                bucket = record {
                  same_rate = p.bucket.same_rate;
                  limit = p.bucket.limit;
                  full = omega (arith, left, p.bucket.full);
                  since = p.bucket.since;
                  until = p.bucket.until;
                };
                gained = p.gained;
                later = p.later;
                timed = p.timed;
                paid = omega (arith, left, p.paid);
              })
      ]

  -- One call, which lets through its count or nothing.
  allow_n-Passes :
      (tb : TokenBucket F) (count : ℤ) (now : ℕ)
      → IsBucket tb
      → now ≤ end
      → (tb' : TokenBucket F) × ((allow_n float (some tb) count now).1 ≡ some tb')
        × Passes tb tb' (granted (allow_n float (some tb) count now).0 count) 1
  unfolding allow_n
  allow_n-Passes tb count now b h = elim (Bool-cases (is_positive count)) [
    | inl e ↦ (
      (take_tokens float tb (to_nat count) now).1,
      ground (arith, e),
      rw e (take_tokens-Passes tb (to_nat count) now b h),
    )
    | inr e ↦ (tb, ground (arith, e), rw e (Passes-idle tb 1 b))
  ]

  Passes-trans :
      (a b c : TokenBucket F) (m n calls : ℕ)
      → Passes a b m 1
      → Passes b c n calls
      → Passes a c (m + n) (suc calls)
  Passes-trans a b c m n calls p q = record {
    bucket = q.bucket;
    gained = p.gained + q.gained;
    later = omega (arith, p.later, q.later);
    timed = omega (arith, p.later, q.later, p.timed, q.timed);
    paid =
        let split : (p.gained + q.gained) * rate ≡ p.gained * rate + q.gained * rate =
          add-mul p.gained q.gained rate in
        omega (arith, split, p.paid, q.paid);
  }

  serve-Passes :
      (tb : TokenBucket F) (rs : List Request)
      → IsBucket tb
      → All (λ r. r.now ≤ end) rs
      → (tb' : TokenBucket F) × ((serve float (some tb) rs).0 ≡ some tb')
        × Passes tb tb' (serve float (some tb) rs).1 (length rs)
  unfolding serve
  serve-Passes tb [] b h = (tb, refl, Passes-idle tb 0 b)
  serve-Passes tb (r ∷ rs) b (h, hs) =
      let (next, e, p) = allow_n-Passes tb r.count r.now b h in
      let (last, f, q) = serve-Passes next rs p.bucket hs in
      rw e (last, f, Passes-trans tb next last _ _ _ p q)

paid-bound :
    (rate burst gained most total left stock : ℕ)
    → gained ≤ most
    → total * grain + left ≤ stock + gained * rate
    → stock ≤ burst * grain
    → total * grain ≤ burst * grain + most * rate
paid-bound rate burst gained most total left stock time paid stocked =
    omega (arith, mul-le-mul_right rate time, paid, stocked)

-- Whatever is asked of a new bucket, in whatever order, with readings of the clock up to an end that is
-- not before its making, on a `float64` that rounds as IEEE asks, and with a burst and a rate that give
-- 2^33 tokens at most up to the end: the tokens that it lets through are at most its burst and what its
-- rate gives from its making to the end and in another 2^-20 seconds for each request, in parts of
-- 2^-20 tokens.
pub serve-new_token_bucket :
    {F : Type 0} (float : Float F) (units : F → ℕ) (rate burst : ℤ) (start end : ℕ)
    (tb : TokenBucket F) (rs : List Request)
    → IsRounded float units
    → new_token_bucket float rate burst start ≡ ok tb
    → start ≤ end
    → All (λ r. r.now ≤ end) rs
    → to_nat burst * grain + ticks (end - start) * to_nat rate ≤ 2 ^ 53
    → (serve float (some tb) rs).1 * grain
      ≤ to_nat burst * grain + ((end - start) * grain / second + length rs) * to_nat rate
unfolding new_token_bucket
serve-new_token_bucket float units rate burst start end tb rs v made order clocks within =
    let r = to_nat rate in
    let b = to_nat burst in
    let whole : units (float.of_int b) ≤ b * grain = v.of_int b (omega (arith, within)) in
    let (last, e, p) =
      serve-Passes float units v r b start end within tb rs
        (record {
          same_rate = ground (arith, made);
          limit = ground (arith, made, whole);
          full = ground (arith, made, whole);
          since = ground (arith, made);
          until = ground (arith, made, order);
        })
        clocks in
    let span : last.last_refill - tb.last_refill ≤ end - start =
      ground (arith, made, p.bucket.until) in
    let time : p.gained ≤ (end - start) * grain / second + length rs =
      omega (arith, p.timed, span) in
    let stocked : units tb.tokens ≤ b * grain = ground (arith, made, whole) in
    paid-bound r b p.gained _ _ _ _ time p.paid stocked
