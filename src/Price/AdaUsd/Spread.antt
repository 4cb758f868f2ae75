-- ===== src/Price/AdaUsd/Spread.antt =====
-- The divergence of two prices in price/ada_usd.go and price/agreement.go, read without division.
use shai.Prelude.{ℕ, zero, suc, ◌+◌, ◌-◌, ◌*◌, ◌≤◌, ◌<◌, ◌≡◌, refl, ap, pos, neg_ℤ, ◌+ℤ◌, arith}
use native.Mathlib.Nat.{mul-pos, mul-le-mul_right, le_of_mul-le-mul_right}
use shai.Big.Rat.{Rat, add, sub, mul, quo, of_int}
use shai.Price.AdaUsd.Split.{IsFraction, AtMost, cross, uncross}

-- r * (1 + d)
abbrev pub raised : Rat → Rat → Rat
raised d r = mul r (add (of_int (pos 1)) d)

pub raised-IsFraction : (d r : Rat) → IsFraction d → IsFraction r → IsFraction (raised d r)
raised-IsFraction d r p q = record {
  num = q.num * (d.den + p.num);
  num_eq = rw (p.num_eq, q.num_eq) (ap pos (omega arith));
  den_pos = omega (arith, mul-pos q.den_pos p.den_pos);
}

pub raised_mono :
    (d a b : Rat)
    → IsFraction d
    → IsFraction a
    → IsFraction b
    → AtMost a b
    → AtMost (raised d a) (raised d b)
unfolding raised-IsFraction
raised_mono d a b p q r h =
    uncross (raised d a) (raised d b) (raised-IsFraction d a p q) (raised-IsFraction d b p r)
      (omega (arith, mul-le-mul_right (d.den * (d.den + p.num)) (cross a b q r h)))

pub raised_ge : (d a : Rat) (p : IsFraction d) (q : IsFraction a) → AtMost a (raised d a)
unfolding raised-IsFraction
raised_ge d a p q = uncross a (raised d a) q (raised-IsFraction d a p q) (omega arith)

sub_pos : (a b : ℕ) → b ≤ a → pos a +ℤ neg_ℤ (pos b) ≡ pos (a - b)
sub_pos a zero h = ap pos (omega arith)
sub_pos a (suc b) h = ground arith

-- high - low, as a fraction.
sub-IsFraction :
    (high low : Rat) (r : IsFraction high) (q : IsFraction low)
    → AtMost low high
    → (sub high low).num ≡ pos (r.num * low.den - q.num * high.den)
sub-IsFraction high low r q le =
    rw (r.num_eq, q.num_eq) (sub_pos (r.num * low.den) (q.num * high.den) (cross low high q r le))

pub spread-IsFraction :
    (low high : Rat) (q : IsFraction low) (r : IsFraction high)
    → 0 < q.num
    → AtMost low high
    → IsFraction (quo (sub high low) low)
unfolding quo
spread-IsFraction low high q r positive le = record {
  num = (r.num * low.den - q.num * high.den) * low.den;
  num_eq = rw (sub-IsFraction high low r q le, q.num_eq) refl;
  den_pos = rw q.num_eq (mul-pos (mul-pos r.den_pos q.den_pos) positive);
}

-- If (high - low) / low is at most d, then high is at most low * (1 + d).
pub spread_within :
    (d low high : Rat) (p : IsFraction d) (q : IsFraction low) (r : IsFraction high)
    → 0 < q.num
    → AtMost low high
    → AtMost (quo (sub high low) low) d
    → AtMost high (raised d low)
unfolding quo spread-IsFraction raised-IsFraction
spread_within d low high p q r positive le h =
    let s = spread-IsFraction low high q r positive le in
    let x = r.num * low.den - q.num * high.den in
    let bound : x * low.den * d.den ≤ p.num * (high.den * low.den * q.num) =
      rw q.num_eq at (cross (quo (sub high low) low) d s p h) in
    let scaled : x * d.den * low.den ≤ p.num * (high.den * q.num) * low.den =
      omega (arith, bound) in
    let apart : x * d.den ≤ p.num * (high.den * q.num) = le_of_mul-le-mul_right scaled q.den_pos in
    let whole : r.num * low.den ≡ x + q.num * high.den = omega (arith, cross low high q r le) in
    uncross high (raised d low) r (raised-IsFraction d low p q)
      (omega (arith, ap (λ n. n * d.den) whole, apart))

-- The converse.
pub spread_within_of :
    (d low high : Rat) (p : IsFraction d) (q : IsFraction low) (r : IsFraction high)
    → 0 < q.num
    → AtMost low high
    → AtMost high (raised d low)
    → AtMost (quo (sub high low) low) d
unfolding quo spread-IsFraction raised-IsFraction
spread_within_of d low high p q r positive le h =
    let s = spread-IsFraction low high q r positive le in
    let x = r.num * low.den - q.num * high.den in
    let whole : r.num * low.den ≡ x + q.num * high.den = omega (arith, cross low high q r le) in
    let bound = cross high (raised d low) r (raised-IsFraction d low p q) h in
    let apart : x * d.den ≤ p.num * (high.den * q.num) =
      omega (arith, ap (λ n. n * d.den) whole, bound) in
    uncross (quo (sub high low) low) d s p
      (rw q.num_eq (omega (arith, mul-le-mul_right low.den apart)))
