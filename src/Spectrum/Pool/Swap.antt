-- ===== src/Spectrum/Pool/Swap.antt =====
-- A swap of internal/spectrum/pool.go keeps the product of the reserves.
use shai.Prelude.{
  ℕ, ◌+◌, ◌-◌, ◌*◌, ◌%◌, ◌≤◌, ◌<◌, ◌≡◌, ◌⊎◌, ◌∙◌, inl, inr, refl, ap, some, arith, ◌==◌, false,
}
use shai.Amm.{output, output-lt, output-product}
use shai.Asset.{AssetClass, AssetAmount, IsOf, is_asset, eq_bytes-IsOf, eq_bytes_not_IsOf}
use shai.Dex.Pool.{max_u64, u64_mod}
use shai.Spectrum.Pool.{SpectrumPool, sides, swapped, output_of, output_for_input}

small : (q : ℕ) → q < u64_mod → q % u64_mod ≡ q
small q h = omega arith

swapped-output :
    (f a : ℕ) (i o : AssetAmount)
    → 0 < i.amount
    → 0 < o.amount
    → o.amount ≤ max_u64
    → swapped f a i o
      ≡ some (record { class = o.class; amount = output i.amount o.amount f 1000 a })
swapped-output f a i o hi ho fits =
    let divisor : (i.amount + 0) * 1000 + a * f ≡ i.amount * 1000 + a * f = omega arith in
    let numerator : f * (o.amount * a) ≡ o.amount * (a * f) = omega arith in
    let nonzero : (i.amount * 1000 + a * f == 0) ≡ false = ground arith in
    let lt = output-lt i.amount o.amount f 1000 a hi ho (omega arith) in
    rw (divisor, numerator, nonzero)
      (ap (λ n. some (record { class = o.class; amount = n }))
        (small (output i.amount o.amount f 1000 a) (omega (arith, lt, fits))))

-- The input is the pool's first asset, i, and o the second, or the input is the second and not the
-- first.
abbrev pub Faces : SpectrumPool → AssetClass → AssetAmount → AssetAmount → Type 0
Faces p input i o =
    (IsOf p.x.class input.policy_id input.name × (p.x ≡ i) × (p.y ≡ o))
    ⊎ ((¬ IsOf p.x.class input.policy_id input.name)
        × IsOf p.y.class input.policy_id input.name
        × (p.y ≡ i)
        × (p.x ≡ o))

sides-Faces :
    (p : SpectrumPool) (input : AssetClass) (i o : AssetAmount)
    → Faces p input i o
    → sides p input ≡ some (i, o)
unfolding sides is_asset
sides-Faces p input i o (inl (first, i_eq, o_eq)) =
    rw ((eq_bytes-IsOf p.x.class input.policy_id input.name).1 first)
      (ap (λ a. some (a, p.y)) i_eq ∙ ap (λ b. some (i, b)) o_eq)
sides-Faces p input i o (inr (other, second, i_eq, o_eq)) =
    rw
      (
        eq_bytes_not_IsOf p.x.class input.policy_id input.name other,
        (eq_bytes-IsOf p.y.class input.policy_id input.name).1 second,
      )
      (ap (λ a. some (a, p.x)) i_eq ∙ ap (λ b. some (i, b)) o_eq)

-- If the asset is in the pool, i and o its own and the other amount, the reserves are positive
-- uint64 amounts and the fee multiplier is at most 1, the swap has an output, of the other asset and
-- less than its reserve, and does not lower the product of the reserves.
pub output_for_input-keeps_product :
    (p : SpectrumPool) (input : AssetClass) (a : ℕ) (i o : AssetAmount)
    → Faces p input i o
    → 0 < i.amount
    → 0 < o.amount
    → o.amount ≤ max_u64
    → p.fee_num ≤ 1000
    → (out : AssetAmount) × (output_for_input p input a ≡ some out)
      × (out.class ≡ o.class)
      × (out.amount < o.amount)
      × (i.amount * o.amount ≤ (i.amount + a) * (o.amount - out.amount))
unfolding output_for_input output_of
output_for_input-keeps_product p input a i o e hi ho fits fee = (
  record { class = o.class; amount = output i.amount o.amount p.fee_num 1000 a },
  rw (sides-Faces p input i o e) (swapped-output p.fee_num a i o hi ho fits),
  refl,
  output-lt i.amount o.amount p.fee_num 1000 a hi ho (omega arith),
  output-product i.amount o.amount p.fee_num 1000 a (omega arith) fee,
)
