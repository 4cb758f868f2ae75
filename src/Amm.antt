-- ===== src/Amm.antt =====
-- The constant-product formula that dex/models.go and internal/spectrum/pool.go share:
-- out = reserve_out * (amount * fee) / (reserve_in * denom + amount * fee).
use shai.Prelude.{ℕ, ◌+◌, ◌-◌, ◌*◌, ◌/◌, ◌≤◌, ◌<◌, ◌≡◌, sym, arith}
use mathlib.Core.Path.{subst}
use native.Mathlib.Nat.{
  div-mul-le_self, div-le_of_le-mul, div-lt_iff_lt-mul, le-div_iff_mul-le, mul-le-mul_left,
  mul-le-mul_right, le_of_mul-le-mul_right, mul-pos, le_trans,
}

-- With x and y the reserves, a the amount, f / d the fee multiplier.
abbrev pub output : (x y f d a : ℕ) → ℕ
output x y f d a = y * (a * f) / (x * d + a * f)

pub output-le : (x y f d a : ℕ) → output x y f d a ≤ y
output-le x y f d a = div-le_of_le-mul (x * d + a * f) (omega (arith))

pub output-lt : (x y f d a : ℕ) → 0 < x → 0 < y → 0 < d → output x y f d a < y
output-lt x y f d a hx hy hd =
    let xd = mul-pos hx hd in (div-lt_iff_lt-mul (omega arith)).1 (omega (arith, mul-pos hy xd))

-- What the pool keeps on the input side outweighs what it gives, `out` of `out + r`.
scaled : (x r f d a out : ℕ) → out * (x * d + a * f) ≤ (out + r) * (a * f) → x * out * d ≤ r * a * f
scaled x r f d a out h = omega arith

product_split :
    (x r f d a out : ℕ)
    → 0 < d
    → f ≤ d
    → out * (x * d + a * f) ≤ (out + r) * (a * f)
    → x * (out + r) ≤ (x + a) * r
product_split x r f d a out hd hf h = omega (
  arith,
  le_of_mul-le-mul_right {m = x * out} {n = r * a} {k = d}
      (le_trans (scaled x r f d a out h) (mul-le-mul_left (r * a) hf)) hd,
)

-- A swap that takes the fee never lowers the product of the reserves.
pub output-product : (x y f d a : ℕ) → 0 < d → f ≤ d → x * y ≤ (x + a) * (y - output x y f d a)
output-product x y f d a hd hf =
    let out = output x y f d a in
    let whole : y ≡ out + (y - out) = omega (arith, output-le x y f d a) in
    subst (λ t. x * t ≤ (x + a) * (y - out)) (sym whole)
      (product_split x (y - out) f d a out hd hf (
        subst (λ t. out * (x * d + a * f) ≤ t * (a * f)) whole (div-mul-le_self _ (x * d + a * f))))

pub output_mono : (x y f d a c : ℕ) → 0 < x → 0 < d → output x y f d a ≤ output x y f d (a + c)
output_mono x y f d a c hx hd =
    let xd = mul-pos hx hd in
    (le-div_iff_mul-le (omega arith)).1 (
      omega (
        arith,
        div-mul-le_self (y * (a * f)) (x * d + a * f),
        mul-le-mul_right (c * f) (output-le x y f d a),
      ))
