-- ===== src/Dex/Pool/Bounds.antt =====
-- What a quote of dex/models.go may return.
use shai.Prelude.{
  ℕ, ◌+◌, ◌-◌, ◌*◌, ◌/◌, ◌≡◌, ◌≤◌, ◌<◌, ◌⊎◌, inl, inr, refl, ok, arith, some, Bytes, sym,
}
use native.Mathlib.Nat.{mul-pos, le_of_mul-le-mul_right}
use mathlib.Core.Path.{subst}
use shai.Asset.{IsOf, eq_bytes-IsOf, eq_bytes_not_IsOf}
use shai.Amm.{output, output-le, output-lt, output-product, output_mono}
use shai.Dex.Pool.{PoolState, swap_output, reserves, quote, max_u64}

-- With reserves that a uint64 holds the two last guards are never met.
swap_output_lem :
    (x y f d a : ℕ)
    → 0 < x
    → 0 < y
    → y ≤ max_u64
    → 0 < d
    → swap_output x y f d a ≡ ok (output x y f d a)
unfolding swap_output
swap_output_lem x y f d a hx hy h hd = ground (arith, output-le x y f d a, mul-pos hx hd)

swap_output-ok :
    (x y f d a out : ℕ)
    → 0 < d
    → swap_output x y f d a ≡ ok out
    → (0 < x) × (0 < y) × (out ≡ output x y f d a)
unfolding swap_output
swap_output-ok x y f d a hd h = ground arith

-- The asset is the first one of the pool, or the second and not the first; x is its reserve and y
-- that of the other one.
abbrev pub Faces : PoolState → Bytes → Bytes → ℕ → ℕ → Type 0
Faces p policy name x y =
    (IsOf p.asset_x.class policy name × (p.asset_x.amount ≡ x) × (p.asset_y.amount ≡ y))
    ⊎ ((¬ IsOf p.asset_x.class policy name)
        × IsOf p.asset_y.class policy name
        × (p.asset_y.amount ≡ x)
        × (p.asset_x.amount ≡ y))

reserves-Faces :
    (p : PoolState) (policy name : Bytes) (x y : ℕ)
    → Faces p policy name x y
    → reserves p policy name ≡ some (x, y)
unfolding reserves
reserves-Faces p policy name x y (inl (first, x_eq, y_eq)) =
    rw ((eq_bytes-IsOf p.asset_x.class policy name).1 first, x_eq, y_eq) refl
reserves-Faces p policy name x y (inr (other, second, x_eq, y_eq)) =
    rw
      (
        eq_bytes_not_IsOf p.asset_x.class policy name other,
        (eq_bytes-IsOf p.asset_y.class policy name).1 second,
        x_eq,
        y_eq,
      )
      refl

module _ (p : PoolState) (policy name : Bytes) (a : ℕ) {x y : ℕ}
    (faces : Faces p policy name x y) where
  -- If the fee is a proper fraction, the asset is in the pool and neither reserve is zero, the
  -- quote succeeds with the constant-product output, rounded down; the output reserve is a uint64.
  pub quote-total :
      0 < p.fee_denom
      → p.fee_num ≤ p.fee_denom
      → 0 < x
      → 0 < y
      → y ≤ max_u64
      → quote p policy name a ≡ ok (y * (a * p.fee_num) / (x * p.fee_denom + a * p.fee_num))
  unfolding quote
  quote-total hd hf hx hy h = ground (
    arith,
    reserves-Faces p policy name x y faces,
    swap_output_lem x y p.fee_num p.fee_denom a hx hy h hd,
  )

  quote-ok :
      (out : ℕ)
      → quote p policy name a ≡ ok out
      → (0 < p.fee_denom)
        × (p.fee_num ≤ p.fee_denom)
        × (0 < x)
        × (0 < y)
        × (out ≡ output x y p.fee_num p.fee_denom a)
  unfolding quote
  quote-ok out h = ground (
    arith,
    reserves-Faces p policy name x y faces,
    swap_output-ok x y p.fee_num p.fee_denom a out,
  )

  -- If the asset is one of the pool, x its reserve and y the other, a successful quote gives less than the whole output reserve, and a
  -- swap at that quote does not lower the product of the reserves.
  pub quote-keeps_product :
      (out : ℕ) → quote p policy name a ≡ ok out → (out < y) × (x * y ≤ (x + a) * (y - out))
  quote-keeps_product out h =
      let (hd, hf, hx, hy, e) = quote-ok out h in
      (
        subst (λ t. t < y) (sym e) (output-lt x y p.fee_num p.fee_denom a hx hy hd),
        subst (λ t. x * y ≤ (x + a) * (y - t)) (sym e)
            (output-product x y p.fee_num p.fee_denom a hd hf),
      )

-- A larger input is quoted at least the output of a smaller one.
pub quote_mono :
    (p : PoolState) (policy name : Bytes) (a c x y out more : ℕ)
    → Faces p policy name x y
    → quote p policy name a ≡ ok out
    → quote p policy name (a + c) ≡ ok more
    → out ≤ more
quote_mono p policy name a c x y out more sides h k =
    let (hd, hf, hx, hy, e) = quote-ok p policy name a sides out h in
    let (_, _, _, _, e') = quote-ok p policy name (a + c) sides more k in
    omega (arith, output_mono x y p.fee_num p.fee_denom a c hx hd)

gain_bound :
    (x y a out b : ℕ)
    → out < y
    → b < x + a
    → x * y ≤ (x + a) * (y - out)
    → (y - out) * (x + a) ≤ (y - out + out) * (x + a - b)
    → b ≤ a
gain_bound x y a out b h k there again =
    let whole : y - out + out ≡ y = omega arith in
    let kept : x ≤ x + a - b =
      le_of_mul-le-mul_right {k = y} (omega (arith, rw whole at again)) (omega arith) in
    omega arith

-- Swapping there and back never gains: if `a` of one asset is quoted `out` of the other, then in
-- the pool after that swap (of any fee) `out` is quoted at most `a`.
pub quote_there_and_back :
    (p q : PoolState) (policy name policy' name' : Bytes) (a x y out b : ℕ)
    → Faces p policy name x y
    → quote p policy name a ≡ ok out
    → Faces q policy' name' (y - out) (x + a)
    → quote q policy' name' out ≡ ok b
    → b ≤ a
quote_there_and_back p q policy name policy' name' a x y out b sides h sides' h' =
    let (lt, there) = quote-keeps_product p policy name a sides out h in
    let (lt', again) = quote-keeps_product q policy' name' out sides' b h' in
    gain_bound x y a out b lt lt' there again
